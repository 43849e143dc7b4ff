-- ===== src/Cache/Refines.antt =====
-- crates/rdap-cache/src/lib.rs: the cache against a table that forgets how entries are kept: for each
-- key what was last written, and when.
pub mod Answers
use rdapify.Base.{
  ℕ, ◌+◌, ◌-◌, ◌≤◌, ◌≡◌, ◌⊎◌, refl, ap, sym, subst, ◌∙◌, Bool, true, false, Option, none, some,
  List, [], ◌∷◌, ◌&&◌, not, leb, if◌then◌else◌, if-both, Bool-cases, arith, inl, inr, any, length,
}
use rdapify.Base.Text.{Text, text_eq, text_eq_iff, text_eq_refl}
use rdapify.Base.Text.Keyed.{
  get, put, remove, get-put_same, get-put_other, get-remove_same, get-remove_other,
}
use rdapify.Core.Validation.{Value}
use rdapify.Cache.{
  Keeps, Entry, CacheValue, hit, negative, CacheStatus, fresh, stale, absent, miss, MemoryCache,
  get_status, found, status_of, status_at, set_with_ttl, set_negative, clear, is_fresh,
  is_in_stale_window, stale_window, try_acquire_refresh, release, with_config, missed,
  max_inflight_refreshes,
}

-- What the cache can be asked to do, with the time of it.
pub data Op : Type 0 where
  write : Text → Value → ℕ → Op
  write_negative : Text → ℕ → Op
  lookup : Text → Op
  empty : Op
  claim : ℕ → Text → Op
  drop : Text → Op

-- The cache.
abbrev pub looked : CacheStatus × MemoryCache → Option CacheStatus × MemoryCache
looked (status, c) = (some status, c)

unfoldable pub perform : Keeps → ℕ → Op → MemoryCache → Option CacheStatus × MemoryCache
perform keeps now (write key value ttl) c = (none, set_with_ttl now key value ttl c)
perform keeps now (write_negative key ttl) c = (none, set_negative now key ttl c)
perform keeps now (lookup key) c = looked (get_status keeps now key c)
perform keeps now empty c = (none, clear c)
perform keeps now (claim n key) c = (none, (try_acquire_refresh n key c).1)
perform keeps now (drop key) c = (none, release key c)

-- The table: when a key was last written, and what: a value, or `none` for a 404.
pub record Written : Type 0 where
  pub what : Option Value
  pub time : ℕ
  pub ttl : ℕ

abbrev pub Table : Type 0
Table = Text → Option Written

-- What a reading of the table answers at a time.
abbrev pub reading : ℕ → Option Written → CacheStatus
reading now none = miss
reading now (some r) = elim r.what [
  | some value ↦
      if leb (now - r.time) r.ttl
      then fresh value
      else if leb (now - r.time) (r.ttl + stale_window r.ttl)
      then stale value
      else miss
  | none ↦ if leb (now - r.time) r.ttl then absent else miss
]

abbrev pub write_to : Text → Written → Table → Table
write_to key r t k = if text_eq key k then some r else t k

unfoldable pub perform_on : ℕ → Op → Table → Option CacheStatus × Table
perform_on now (write key value ttl) t =
    (none, write_to key (record { what = some value; time = now; ttl = ttl }) t)
perform_on now (write_negative key ttl) t =
    (none, write_to key (record { what = none; time = now; ttl = ttl }) t)
perform_on now (lookup key) t = (some (reading now (t key)), t)
perform_on now empty t = (none, λ k. none)
perform_on now (claim n key) t = (none, t)
perform_on now (drop key) t = (none, t)

-- The answers of a run, each operation with its time.
unfoldable pub answers : Keeps → List (ℕ × Op) → MemoryCache → List (Option CacheStatus)
answers keeps [] c = []
answers keeps ((now, op) ∷ ops) c =
    (perform keeps now op c).0 ∷ answers keeps ops (perform keeps now op c).1

unfoldable pub table_answers : List (ℕ × Op) → Table → List (Option CacheStatus)
table_answers [] t = []
table_answers ((now, op) ∷ ops) t =
    (perform_on now op t).0 ∷ table_answers ops (perform_on now op t).1

-- The clock does not run backwards.
abbrev pub Ordered : ℕ → List (ℕ × Op) → Type 0
Ordered before [] = Unit
Ordered before ((now, op) ∷ ops) = (before ≤ now) × Ordered now ops

-- The entry that stands for a line of the table.
abbrev pub entry_of : Written → Entry
entry_of r = elim r.what [
  | some value ↦ record {
    value = hit value;
    inserted_at = r.time;
    ttl = r.ttl;
    stale_ttl = stale_window r.ttl;
  }
  | none ↦ record { value = negative; inserted_at = r.time; ttl = r.ttl; stale_ttl = 0 }
]

abbrev pub entries_of : Option Written → Option Entry
entries_of none = none
entries_of (some r) = some (entry_of r)

-- An entry is there, or was given up after its time.
abbrev pub Agrees : ℕ → MemoryCache → Table → Type 0
Agrees now c t =
    (key : Text)
    → (get key c.store ≡ entries_of (t key))
      ⊎ ((get key c.store ≡ none) × (reading now (t key) ≡ miss))

-- What is over stays over.
reading_over :
    (now later : ℕ) (o : Option Written)
    → now ≤ later
    → reading now o ≡ miss
    → reading later o ≡ miss
reading_over now later none le h = refl
reading_over now later (some r) le h = over r.what h
  where
    over :
        (what : Option Value)
        → reading now (some (record r { what = what })) ≡ miss
        → reading later (some (record r { what = what })) ≡ miss
    over (some value) e = ground arith
    over none e = ground arith

-- ===== src/Cache/Refines/Answers.antt =====
-- crates/rdap-cache/src/lib.rs: the cache answers as the table does.
use rdapify.Base.{
  ℕ, ◌≤◌, ◌≡◌, ◌⊎◌, refl, ap, sym, subst, ◌∙◌, Bool, true, Option, none, some, List, [], ◌∷◌, leb,
  if-both, Bool-cases, arith, inl, inr, any,
}
use rdapify.Base.Text.{Text, text_eq, text_eq_iff}
use rdapify.Base.Text.Keyed.{
  get, put, remove, get-put_same, get-put_other, get-remove_same, get-remove_other,
}
use rdapify.Core.Validation.{Value}
use rdapify.Cache.{
  Keeps, Entry, CacheValue, hit, negative, CacheStatus, miss, MemoryCache, get_status, found,
  status_of, status_at, set_with_ttl, set_negative, clear, is_fresh, is_in_stale_window,
  try_acquire_refresh, release, with_config, max_inflight_refreshes,
}
use rdapify.Cache.Refines.{
  Op, write, write_negative, lookup, empty, claim, drop, perform, Written, Table, reading, write_to,
  perform_on, answers, table_answers, Ordered, entry_of, entries_of, Agrees, reading_over,
}

-- What a lookup leaves of the store.
Left : Text → MemoryCache → CacheStatus × MemoryCache → Type 0
Left key c (status, c') = (c'.store ≡ c.store) ⊎ ((status ≡ miss) × (c'.store ≡ remove key c.store))

status_of-Left :
    (now : ℕ) (key : Text) (entry : Entry) (v : CacheValue) (c : MemoryCache)
    → Left key c (status_of now key entry v c)
unfolding status_of Left
status_of-Left now key entry negative c =
    if-both (Left key c) (is_fresh now entry) _ _ (λ e. inl refl) (λ e. inr (refl, refl))
status_of-Left now key entry (hit value) c =
    if-both (Left key c) (is_fresh now entry) _ _ (λ e. inl refl)
      (λ e.
        if-both (Left key c) (is_in_stale_window now entry) _ _ (λ e'. inl refl)
          (λ e'. inr (refl, refl)))

status_at-Left :
    (now : ℕ) (key : Text) (o : Option Entry) (c : MemoryCache) → Left key c (status_at now key o c)
unfolding status_at Left
status_at-Left now key none c = inl refl
status_at-Left now key (some entry) c = status_of-Left now key entry entry.value c

get_status-Left :
    (keeps : Keeps) (now : ℕ) (key : Text) (c : MemoryCache)
    → Left key c (get_status keeps now key c)
unfolding get_status
get_status-Left keeps now key c = status_at-Left now key (found keeps now key (get key c.store)) c

module _ (keeps : Keeps) (kept : (now : ℕ) (key : Text) (e : Entry) → keeps now key e ≡ true) where
  -- An entry answers as its line.
  entry_answers :
      (now : ℕ) (key : Text) (o : Option Written) (c : MemoryCache)
      → (status_at now key (found keeps now key (entries_of o)) c).0 ≡ reading now o
  unfolding status_at found status_of is_fresh is_in_stale_window
  entry_answers now key none c = refl
  entry_answers now key (some r) c = rw (kept now key (entry_of r), status_at) (at r.what)
    where
      at :
          (what : Option Value)
          → (status_at now key (some (entry_of (record r { what = what }))) c).0
            ≡ reading now (some (record r { what = what }))
      at (some value) = ground arith
      at none = ground arith

  get_status_reads :
      (now : ℕ) (key : Text) (c : MemoryCache) (t : Table)
      → Agrees now c t
      → (get_status keeps now key c).0 ≡ reading now (t key)
  unfolding get_status
  get_status_reads now key c t agrees = elim (agrees key) [
    | inl e ↦ rw e (entry_answers now key (t key) c)
    | inr (gone, over) ↦ rw gone (entry_answers now key none c ∙ sym over)
  ]

  -- Time passes.
  Agrees-later :
      (now later : ℕ) (c : MemoryCache) (t : Table)
      → now ≤ later
      → Agrees now c t
      → Agrees later c t
  Agrees-later now later c t le agrees key = elim (agrees key) [
    | inl e ↦ inl e
    | inr (gone, over) ↦ inr (gone, reading_over now later (t key) le over)
  ]

  looked-Agrees :
      (now : ℕ) (key : Text) (o : CacheStatus × MemoryCache) (c : MemoryCache) (t : Table)
      → Left key c o
      → o.0 ≡ reading now (t key)
      → Agrees now c t
      → Agrees now o.1 t
  unfolding Left
  looked-Agrees now key (status, c') c t (inl same) reads agrees other = rw same (agrees other)
  looked-Agrees now key (status, c') c t (inr (over, removed)) reads agrees other =
      elim (Bool-cases (text_eq key other)) [
        | inl e ↦
            let same = (text_eq_iff key other).0 e in
            let gone =
              subst (λ (k : Text). get k (remove key c.store) ≡ none) same
                (get-remove_same key c.store) in
            let done = subst (λ (k : Text). reading now (t k) ≡ miss) same (sym reads ∙ over) in
            inr (rw removed gone, done)
        | inr e ↦ rw (removed, get-remove_other key other c.store e) (agrees other)
      ]

  written-Agrees :
      (now : ℕ) (key : Text) (r : Written) (c c' : MemoryCache) (t : Table)
      → c'.store ≡ put key (entry_of r) c.store
      → Agrees now c t
      → Agrees now c' (write_to key r t)
  written-Agrees now key r c c' t stored agrees other = elim (Bool-cases (text_eq key other)) [
    | inl e ↦
        let same = (text_eq_iff key other).0 e in
        inl (
          rw (stored, e)
            (subst (λ (k : Text). get k (put key (entry_of r) c.store) ≡ some (entry_of r)) same
              (get-put_same key (entry_of r) c.store)))
    | inr e ↦ rw (stored, e, get-put_other key other (entry_of r) c.store e) (agrees other)
  ]

  try_acquire_refresh-store :
      (n : ℕ) (key : Text) (c : MemoryCache) → (try_acquire_refresh n key c).1.store ≡ c.store
  unfolding try_acquire_refresh
  try_acquire_refresh-store n key c =
      if-both (λ (o : Bool × MemoryCache). o.1.store ≡ c.store) (leb max_inflight_refreshes n) _ _
        (λ e. refl)
        (λ e.
          if-both (λ (o : Bool × MemoryCache). o.1.store ≡ c.store) (any (text_eq key) c.in_flight)
            _ _ (λ e'. refl) (λ e'. refl))

  -- One operation: the same answer, and agreement after it.
  perform-Agrees :
      (now : ℕ) (op : Op) (c : MemoryCache) (t : Table)
      → Agrees now c t
      → ((perform keeps now op c).0 ≡ (perform_on now op t).0)
        × Agrees now (perform keeps now op c).1 (perform_on now op t).1
  unfolding perform perform_on set_with_ttl set_negative clear release get
  perform-Agrees now (write key value ttl) c t agrees = (
    refl,
    written-Agrees now key (record { what = some value; time = now; ttl = ttl }) c
        (set_with_ttl now key value ttl c) t refl agrees,
  )
  perform-Agrees now (write_negative key ttl) c t agrees = (
    refl,
    written-Agrees now key (record { what = none; time = now; ttl = ttl }) c
        (set_negative now key ttl c) t refl agrees,
  )
  perform-Agrees now (lookup key) c t agrees =
      let reads = get_status_reads now key c t agrees in
      (
        ap (λ (s : CacheStatus). some s) reads,
        looked-Agrees now key (get_status keeps now key c) c t (get_status-Left keeps now key c)
            reads agrees,
      )
  perform-Agrees now empty c t agrees = (refl, λ key. inl refl)
  perform-Agrees now (claim n key) c t agrees =
      (refl, λ other. rw (try_acquire_refresh-store n key c) (agrees other))
  perform-Agrees now (drop key) c t agrees = (refl, agrees)

  answers-Agrees :
      (before : ℕ) (ops : List (ℕ × Op)) (c : MemoryCache) (t : Table)
      → Ordered before ops
      → Agrees before c t
      → answers keeps ops c ≡ table_answers ops t
  unfolding answers table_answers
  answers-Agrees before [] c t ordered agrees = refl
  answers-Agrees before ((now, op) ∷ ops) c t (le, ordered) agrees =
      let (same, after) = perform-Agrees now op c t (Agrees-later before now c t le agrees) in
      let rest =
        answers-Agrees now ops (perform keeps now op c).1 (perform_on now op t).1 ordered after in
      rw (same, rest) refl

-- While the store drops nothing by itself, and the clock does not run backwards, a run of a new cache
-- gives the answers of the table: writes, lookups with their removal of old entries, claims and drops
-- of refreshes and clearings are seen only through what was last written under a key, and when.
pub with_config_refines :
    (keeps : Keeps) (ttl start : ℕ) (ops : List (ℕ × Op))
    → ((now : ℕ) (key : Text) (e : Entry) → keeps now key e ≡ true)
    → Ordered start ops
    → answers keeps ops (with_config ttl) ≡ table_answers ops (λ key. none)
unfolding with_config get
with_config_refines keeps ttl start ops kept ordered =
    answers-Agrees keeps kept start ops (with_config ttl) (λ key. none) ordered (λ key. inl refl)

-- ===== src/Cache/Freshness.antt =====
-- When the cache serves what, by the age of the entry.
use rdapify.Base.{
  ℕ, ◌+◌, ◌-◌, ◌≤◌, ◌<◌, ◌⊎◌, ◌≡◌, refl, Option, none, some, leb, if◌then◌else◌, arith, subst,
  Bool-cases, inl, inr, true,
}
use rdapify.Base.Text.{Text, text_eq, text_eq_iff}
use rdapify.Base.Text.Keyed.{get, put, get-put_same, get-put_other}
use rdapify.Core.Validation.{Value}
use rdapify.Cache.{
  Keeps, Entry, CacheValue, hit, negative, CacheStatus, fresh, stale, absent, miss, MemoryCache,
  CachePolicy, total_ttl, stale_window, get_status, found, status_of, status_at, set_with_ttl,
  set_negative, effective_ttl, is_fresh, is_in_stale_window, release,
}

-- The entry that `set_with_ttl` makes.
abbrev pub made : ℕ → Value → ℕ → Entry
made now value ttl = record {
  value = hit value;
  inserted_at = now;
  ttl = ttl;
  stale_ttl = stale_window ttl;
}

-- A value as it ages.
abbrev pub aged : Value → ℕ → ℕ → CacheStatus
aged value ttl age =
    if leb age ttl
    then fresh value
    else if leb age (ttl + stale_window ttl)
    then stale value
    else miss

-- What a lookup answers depends on the entry alone.
status_of_any :
    (now : ℕ) (key : Text) (entry : Entry) (v : CacheValue) (c d : MemoryCache)
    → (status_of now key entry v c).0 ≡ (status_of now key entry v d).0
unfolding status_of
status_of_any now key entry negative c d = ground arith
status_of_any now key entry (hit value) c d = ground arith

status_at_any :
    (now : ℕ) (key : Text) (o : Option Entry) (c d : MemoryCache)
    → (status_at now key o c).0 ≡ (status_at now key o d).0
unfolding status_at
status_at_any now key none c d = refl
status_at_any now key (some entry) c d = status_of_any now key entry entry.value c d

status_of-made :
    (keeps : Keeps) (now later : ℕ) (key : Text) (value : Value) (ttl : ℕ) (c : MemoryCache)
    → (status_at later key (found keeps later key (some (made now value ttl))) c).0
      ≡ (if keeps later key (made now value ttl) then aged value ttl (later - now) else miss)
unfolding status_at status_of found is_fresh is_in_stale_window
status_of-made keeps now later key value ttl c =
    elim (Bool-cases (keeps later key (made now value ttl))) [
      | inl e ↦ rw (e, found, status_at, status_of) (ground arith)
      | inr e ↦ rw (e, found, status_at) refl
    ]

-- A stored value is fresh for its time to live, then stale for a fifth of that (between half a minute
-- and two minutes), then gone, and gone at any time once the store drops it; other keys answer as
-- before.
pub get_status-set_with_ttl :
    (keeps : Keeps) (now later : ℕ) (key other : Text) (value : Value) (ttl : ℕ) (c : MemoryCache)
    → (get_status keeps later other (set_with_ttl now key value ttl c)).0 ≡ (
        if text_eq key other
        then (if keeps later other (made now value ttl) then aged value ttl (later - now) else miss)
        else (get_status keeps later other c).0)
unfolding get_status set_with_ttl
get_status-set_with_ttl keeps now later key other value ttl c =
    elim (Bool-cases (text_eq key other)) [
      | inl e ↦
          let same = (text_eq_iff key other).0 e in
          let stored : get other (put key (made now value ttl) c.store)
              ≡ some (made now value ttl) =
            subst (λ k. get k (put key (made now value ttl) c.store) ≡ some (made now value ttl))
              same (get-put_same key (made now value ttl) c.store) in
          rw (e, stored) (status_of-made keeps now later other value ttl _)
      | inr e ↦
          rw (e, get-put_other key other (made now value ttl) c.store e)
            (status_at_any later other _ _ c)
    ]

-- The value that a status carries.
abbrev pub served : CacheStatus → Option Value
served (fresh value) = some value
served (stale value) = some value
served absent = none
served miss = none

served_of :
    (now : ℕ) (key : Text) (entry : Entry) (v : CacheValue) (c : MemoryCache) (value : Value)
    → served (status_of now key entry v c).0 ≡ some value
    → (v ≡ hit value) × (now - entry.inserted_at ≤ total_ttl entry)
unfolding status_of is_fresh is_in_stale_window total_ttl
served_of now key entry negative c value h = absurd (ground arith)
served_of now key entry (hit u) c value h = ground arith

served_at :
    (keeps : Keeps) (now : ℕ) (key : Text) (o : Option Entry) (c : MemoryCache) (value : Value)
    → served (status_at now key (found keeps now key o) c).0 ≡ some value
    → (entry : Entry) × (o ≡ some entry)
      × (entry.value ≡ hit value)
      × (now - entry.inserted_at ≤ total_ttl entry)
unfolding found status_at
served_at keeps now key none c value h = absurd (cc h)
served_at keeps now key (some entry) c value h = elim (Bool-cases (keeps now key entry)) [
  | inl e ↦
      let h' : served (status_of now key entry entry.value c).0 ≡ some value =
        subst (λ b. served (status_at now key (if b then some entry else none) c).0 ≡ some value) e
          h in
      let (same, age) = served_of now key entry entry.value c value h' in (entry, refl, same, age)
  | inr e ↦
      let h' : none ≡ some value =
        subst (λ b. served (status_at now key (if b then some entry else none) c).0 ≡ some value) e
          h in
      absurd (cc h')
]

-- A value that a lookup serves stands in the store under its key, and is not past its two windows.
pub get_status_serves :
    (keeps : Keeps) (now : ℕ) (key : Text) (c : MemoryCache) (value : Value)
    → served (get_status keeps now key c).0 ≡ some value
    → (entry : Entry) × (get key c.store ≡ some entry)
      × (entry.value ≡ hit value)
      × (now - entry.inserted_at ≤ total_ttl entry)
unfolding get_status
get_status_serves keeps now key c value h = served_at keeps now key (get key c.store) c value h

-- A recorded 404 serves no value under its key, whatever was there before.
pub get_status-set_negative :
    (keeps : Keeps) (now later : ℕ) (key : Text) (ttl : ℕ) (c : MemoryCache)
    → served (get_status keeps later key (set_negative now key ttl c)).0 ≡ none
unfolding get_status set_negative status_at status_of found
get_status-set_negative keeps now later key ttl c =
    rw
      (get-put_same key (record { value = negative; inserted_at = now; ttl = ttl; stale_ttl = 0 })
        c.store)
      (ground arith)

-- Where the bounds are in order, an upstream's hint gives a time to live within them, and the hint
-- itself unless it is outside them.
pub effective_ttl_bounds :
    (policy : CachePolicy) (max_age : ℕ)
    → policy.min_ttl ≤ policy.max_ttl
    → (policy.min_ttl ≤ effective_ttl policy (some max_age))
      × (effective_ttl policy (some max_age) ≤ policy.max_ttl)
      × ((effective_ttl policy (some max_age) ≡ max_age)
          ⊎ (max_age < policy.min_ttl)
          ⊎ (policy.max_ttl < max_age))
unfolding effective_ttl
effective_ttl_bounds policy max_age ordered = (omega arith, omega arith, ground arith)

-- Dropping a guard changes no answer.
pub get_status-release :
    (keeps : Keeps) (later : ℕ) (key other : Text) (c : MemoryCache)
    → (get_status keeps later other (release key c)).0 ≡ (get_status keeps later other c).0
unfolding get_status release
get_status-release keeps later key other c =
    status_at_any later other (found keeps later other (get other c.store)) _ c

-- The entry that `set_negative` makes.
abbrev pub made_negative : ℕ → ℕ → Entry
made_negative now ttl = record { value = negative; inserted_at = now; ttl = ttl; stale_ttl = 0 }

-- A recorded 404 is answered for its time to live, while the store keeps it.
pub get_status_absent :
    (keeps : Keeps) (now later : ℕ) (key : Text) (ttl : ℕ) (c : MemoryCache)
    → keeps later key (made_negative now ttl) ≡ true
    → later - now ≤ ttl
    → (get_status keeps later key (set_negative now key ttl c)).0 ≡ absent
unfolding get_status set_negative status_at status_of found is_fresh
get_status_absent keeps now later key ttl c kept young =
    rw (get-put_same key (made_negative now ttl) c.store) (rw kept (ground arith))

-- ===== src/Cache/Store.antt =====
-- crates/rdap-cache/src/lib.rs: what is true of every entry of the store.
use rdapify.Base.{ℕ, Bool, Option, none, some, All, if-both, leb, any}
use rdapify.Base.Text.{Text, text_eq}
use rdapify.Base.Text.Keyed.{get, All-put, All-remove}
use rdapify.Core.Validation.{Value}
use rdapify.Cache.{
  Keeps, Entry, CacheValue, hit, negative, CacheStatus, MemoryCache, get_status, found, status_of,
  status_at, set_with_ttl, set_negative, is_fresh, is_in_stale_window, try_acquire_refresh, release,
  max_inflight_refreshes,
}

module _ (P : Value → Type 0) where
  abbrev pub OfValue : CacheValue → Type 0
  OfValue (hit value) = P value
  OfValue negative = Unit

  -- Every value in the store has the property.
  abbrev pub Stored : MemoryCache → Type 0
  Stored c = All (λ (e : Text × Entry). OfValue e.1.value) c.store

  status_of-Stored :
      (now : ℕ) (key : Text) (entry : Entry) (v : CacheValue) (c : MemoryCache)
      → Stored c
      → Stored (status_of now key entry v c).1
  unfolding status_of
  status_of-Stored now key entry negative c h =
      if-both (λ (o : CacheStatus × MemoryCache). Stored o.1) (is_fresh now entry) _ _ (λ e. h)
        (λ e. All-remove _ key c.store h)
  status_of-Stored now key entry (hit value) c h =
      if-both (λ (o : CacheStatus × MemoryCache). Stored o.1) (is_fresh now entry) _ _ (λ e. h)
        (λ e.
          if-both (λ (o : CacheStatus × MemoryCache). Stored o.1) (is_in_stale_window now entry) _ _
            (λ e'. h) (λ e'. All-remove _ key c.store h))

  status_at-Stored :
      (now : ℕ) (key : Text) (o : Option Entry) (c : MemoryCache)
      → Stored c
      → Stored (status_at now key o c).1
  unfolding status_at
  status_at-Stored now key none c h = h
  status_at-Stored now key (some entry) c h = status_of-Stored now key entry entry.value c h

  pub get_status-Stored :
      (keeps : Keeps) (now : ℕ) (key : Text) (c : MemoryCache)
      → Stored c
      → Stored (get_status keeps now key c).1
  unfolding get_status
  get_status-Stored keeps now key c h =
      status_at-Stored now key (found keeps now key (get key c.store)) c h

  pub set_with_ttl-Stored :
      (now : ℕ) (key : Text) (value : Value) (ttl : ℕ) (c : MemoryCache)
      → P value
      → Stored c
      → Stored (set_with_ttl now key value ttl c)
  unfolding set_with_ttl
  set_with_ttl-Stored now key value ttl c good h = All-put _ key _ c.store good h

  pub set_negative-Stored :
      (now : ℕ) (key : Text) (ttl : ℕ) (c : MemoryCache)
      → Stored c
      → Stored (set_negative now key ttl c)
  unfolding set_negative
  set_negative-Stored now key ttl c h = All-put _ key _ c.store tt h

  pub try_acquire_refresh-Stored :
      (n : ℕ) (key : Text) (c : MemoryCache) → Stored c → Stored (try_acquire_refresh n key c).1
  unfolding try_acquire_refresh
  try_acquire_refresh-Stored n key c h =
      if-both (λ (o : Bool × MemoryCache). Stored o.1) (leb max_inflight_refreshes n) _ _ (λ e. h)
        (λ e.
          if-both (λ (o : Bool × MemoryCache). Stored o.1) (any (text_eq key) c.in_flight) _ _
            (λ e'. h) (λ e'. h))

  pub release-Stored : (key : Text) (c : MemoryCache) → Stored c → Stored (release key c)
  unfolding release
  release-Stored key c h = h

-- ===== src/Client/Lookup/Values.antt =====
-- crates/rdapify-client/src/lib.rs: which values `fetch_with_cache` can give.
use rdapify.Base.{ℕ, ◌≡◌, refl, Bool, true, false, Option, none, some}
use rdapify.Base.Text.{Text}
use rdapify.Base.Result.{Result, ok, err}
use rdapify.Types.Error.{RdapError}
use rdapify.Core.Validation.{Value}
use rdapify.Cache.{
  MemoryCache, CacheStatus, fresh, stale, absent, miss, get_status, try_acquire_refresh,
}
use rdapify.Cache.Freshness.{served}
use rdapify.Client.{QueryKind, Parts, State, World}
use rdapify.Client.Lookup.{
  Found, fetch_with_cache, with_cache, by_status, claimed, as_leader, admitted, live, as_follower,
  woken, fresh_from, rate_limit,
}
use rdapify.Client.Lookup.Answers.{the_fetch}

-- A property of the value of an answer.
abbrev pub OfFound : (Value → Type 0) → Found → Type 0
OfFound P (ok (value, cached)) = P value
OfFound P (err e) = Unit

-- A property of the values that a status carries.
abbrev pub OfStatus : (Value → Type 0) → CacheStatus → Type 0
OfStatus P status = (value : Value) → served status ≡ some value → P value

module _ (w : World) (p : Parts) (P : Value → Type 0)
    (fetches : (url : Text) (s : State) (value : Value)
      → (the_fetch w p url s).0 ≡ ok value
      → P value) where
  fresh_from-OfFound :
      (r : Result RdapError Value)
      → ((value : Value) → r ≡ ok value → P value)
      → OfFound P (fresh_from r)
  fresh_from-OfFound (ok value) good = good value refl
  fresh_from-OfFound (err e) good = tt

  admitted-OfFound :
      (key url : Text) (kind : QueryKind) (guard : Bool) (r : Result RdapError (Unit {0}))
      (s : State)
      → OfFound P (admitted w p key url kind guard r s).0
  unfolding admitted live
  admitted-OfFound key url kind guard (err e) s = tt
  admitted-OfFound key url kind guard (ok u) s =
      fresh_from-OfFound (the_fetch w p url s).0 (fetches url s)

  as_leader-OfFound :
      (key url : Text) (kind : QueryKind) (guard : Bool) (s : State)
      → OfFound P (as_leader w p key url kind guard s).0
  unfolding as_leader
  as_leader-OfFound key url kind guard s =
      admitted-OfFound key url kind guard (rate_limit w p url s) s

  woken-OfFound :
      (key url : Text) (kind : QueryKind) (o : CacheStatus × MemoryCache) (s : State)
      → OfStatus P o.0
      → OfFound P (woken w p key url kind o s).0
  unfolding woken
  woken-OfFound key url kind (fresh v, c) s good = good v refl
  woken-OfFound key url kind (stale v, c) s good = good v refl
  woken-OfFound key url kind (absent, c) s good = tt
  woken-OfFound key url kind (miss, c) s good = as_leader-OfFound key url kind _ _

  -- A store whose lookups carry such values, now and after a wait.
  module _ (Store : MemoryCache → Type 0)
      (looked : (key : Text) (s : State) (c : MemoryCache)
        → Store c
        → OfStatus P (get_status w.keeps (w.instant s.fetch.trace) key c).0)
      (kept : (key : Text) (s : State) (c : MemoryCache)
        → Store c
        → Store (get_status w.keeps (w.instant s.fetch.trace) key c).1)
      (claims : (n : ℕ) (key : Text) (c : MemoryCache)
        → Store c
        → Store (try_acquire_refresh n key c).1)
      (waits : (key : Text) (s : State) (c : MemoryCache)
        → Store c
        → Store (w.await_refresh s.fetch.trace key c)) where
    claimed-OfFound :
        (key url : Text) (kind : QueryKind) (o : Bool × MemoryCache) (s : State)
        → Store o.1
        → OfFound P (claimed w p key url kind o s).0
    unfolding claimed as_follower
    claimed-OfFound key url kind (true, c) s h = as_leader-OfFound key url kind true _
    claimed-OfFound key url kind (false, c) s h =
        woken-OfFound key url kind _ s (looked key s _ (waits key s c h))

    by_status-OfFound :
        (key url : Text) (kind : QueryKind) (o : CacheStatus × MemoryCache) (s : State)
        → OfStatus P o.0
        → Store o.1
        → OfFound P (by_status w p key url kind o s).0
    unfolding by_status
    by_status-OfFound key url kind (fresh v, c) s good h = good v refl
    by_status-OfFound key url kind (stale v, c) s good h = good v refl
    by_status-OfFound key url kind (absent, c) s good h = tt
    by_status-OfFound key url kind (miss, c) s good h =
        claimed-OfFound key url kind (try_acquire_refresh (w.in_flight_len s.fetch.trace) key c) s
          (claims _ key c h)

    abbrev pub OfCache : Option MemoryCache → Type 0
    OfCache none = Unit
    OfCache (some c) = Store c

    pub fetch_with_cache-OfFound :
        (key url : Text) (kind : QueryKind) (s : State)
        → OfCache s.cache
        → OfFound P (fetch_with_cache w p key url kind s).0
    unfolding fetch_with_cache with_cache
    fetch_with_cache-OfFound key url kind s h = at s.cache h
      where
        at : (o : Option MemoryCache) → OfCache o → OfFound P (with_cache w p key url kind o s).0
        at none i = as_leader-OfFound key url kind false s
        at (some c) i = by_status-OfFound key url kind _ s (looked key s c i) (kept key s c i)

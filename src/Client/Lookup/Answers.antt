-- ===== src/Client/Lookup/Answers.antt =====
-- crates/rdapify-client/src/lib.rs: where an answer of `fetch_with_cache` comes from.
use rdapify.Base.{◌≡◌, ◌⊎◌, refl, ◌∙◌, Bool, true, false, Option, none, some, inl, inr}
use rdapify.Base.Text.{Text}
use rdapify.Base.Result.{Result, ok, err}
use rdapify.Types.Error.{RdapError}
use rdapify.Core.Validation.{Value}
use rdapify.Core.Fetcher.Call as Call
use rdapify.Core.Fetcher.Attempt as Attempt
use rdapify.Cache.{MemoryCache, CacheStatus, fresh, stale, absent, miss}
use rdapify.Client.{QueryKind, Parts, State, World}
use rdapify.Client.Lookup.{
  Found, fetch_with_cache, with_cache, by_status, claimed, spawn, as_leader, admitted, live,
  as_follower, woken, drop_guard, fresh_from, rate_limit,
}

module _ (w : World) (p : Parts) where
  abbrev pub the_fetch : Text → State → Result RdapError Value × Attempt.State
  the_fetch url s = Call.fetch w.fetch p.fetcher url s.fetch

  -- An answer of the cache leaves the fetcher as it was; any other value is that of one fetch of the
  -- URL; an error came before any fetch, or is that of the one fetch.
  abbrev pub Answered : Text → State → Found × State → Type 0
  Answered url s (ok (v, true), s') = s'.fetch ≡ s.fetch
  Answered url s (ok (v, false), s') = the_fetch url s ≡ (ok v, s'.fetch)
  Answered url s (err e, s') = (s'.fetch ≡ s.fetch) ⊎ (the_fetch url s ≡ (err e, s'.fetch))

  pub drop_guard-fetch :
      (key : Text) (guard : Bool) (s : State) → (drop_guard key guard s).fetch ≡ s.fetch
  unfolding drop_guard
  drop_guard-fetch key true s = refl
  drop_guard-fetch key false s = refl

  -- After the guard is dropped.
  dropped-Answered :
      (url key : Text) (guard : Bool) (s s' : State) (r : Found)
      → Answered url s (r, s')
      → Answered url s (r, drop_guard key guard s')
  dropped-Answered url key guard s s' (ok (v, true)) h = drop_guard-fetch key guard s' ∙ h
  dropped-Answered url key guard s s' (ok (v, false)) h = rw (drop_guard-fetch key guard s') h
  dropped-Answered url key guard s s' (err e) h = rw (drop_guard-fetch key guard s') h

  fresh_from-Answered :
      (url : Text) (s : State) (o : Result RdapError Value × Attempt.State) (s' : State)
      → the_fetch url s ≡ o
      → s'.fetch ≡ o.1
      → Answered url s (fresh_from o.0, s')
  fresh_from-Answered url s (ok v, f) s' e same = rw same e
  fresh_from-Answered url s (err x, f) s' e same = inr (rw same e)

  live-Answered :
      (key url : Text) (kind : QueryKind) (guard : Bool) (s : State)
      → Answered url s (live w p key url kind guard s)
  unfolding live
  live-Answered key url kind guard s =
      dropped-Answered url key guard s _ (fresh_from (the_fetch url s).0)
        (fresh_from-Answered url s (the_fetch url s) _ refl refl)

  admitted-Answered :
      (key url : Text) (kind : QueryKind) (guard : Bool) (r : Result RdapError (Unit {0}))
      (s : State)
      → Answered url s (admitted w p key url kind guard r s)
  unfolding admitted
  admitted-Answered key url kind guard (err e) s =
      dropped-Answered url key guard s s (err e) (inl refl)
  admitted-Answered key url kind guard (ok u) s = live-Answered key url kind guard s

  as_leader-Answered :
      (key url : Text) (kind : QueryKind) (guard : Bool) (s : State)
      → Answered url s (as_leader w p key url kind guard s)
  unfolding as_leader
  as_leader-Answered key url kind guard s =
      admitted-Answered key url kind guard (rate_limit w p url s) s

  woken-Answered :
      (key url : Text) (kind : QueryKind) (o : CacheStatus × MemoryCache) (s : State)
      → Answered url s (woken w p key url kind o s)
  unfolding woken
  woken-Answered key url kind (fresh v, c) s = refl
  woken-Answered key url kind (stale v, c) s = refl
  woken-Answered key url kind (absent, c) s = inl refl
  woken-Answered key url kind (miss, c) s = as_leader-Answered key url kind _ _

  claimed-Answered :
      (key url : Text) (kind : QueryKind) (o : Bool × MemoryCache) (s : State)
      → Answered url s (claimed w p key url kind o s)
  unfolding claimed as_follower
  claimed-Answered key url kind (true, c) s = as_leader-Answered key url kind true _
  claimed-Answered key url kind (false, c) s = woken-Answered key url kind _ s

  spawn-fetch :
      (key url : Text) (kind : QueryKind) (o : Bool × MemoryCache) (s : State)
      → (spawn w p key url kind o s).fetch ≡ s.fetch
  unfolding spawn
  spawn-fetch key url kind (true, c) s = refl
  spawn-fetch key url kind (false, c) s = refl

  by_status-Answered :
      (key url : Text) (kind : QueryKind) (o : CacheStatus × MemoryCache) (s : State)
      → Answered url s (by_status w p key url kind o s)
  unfolding by_status
  by_status-Answered key url kind (fresh v, c) s = refl
  by_status-Answered key url kind (stale v, c) s = spawn-fetch key url kind _ s
  by_status-Answered key url kind (absent, c) s = inl refl
  by_status-Answered key url kind (miss, c) s = claimed-Answered key url kind _ s

  -- Whatever the cache holds and whatever other tasks do meanwhile, a call makes no fetch or one: a
  -- value marked as cached, and an error of the cache or the limiter, leave the fetcher as it was, and
  -- any other answer is that of one fetch of the URL.
  pub fetch_with_cache-Answered :
      (key url : Text) (kind : QueryKind) (s : State)
      → Answered url s (fetch_with_cache w p key url kind s)
  unfolding fetch_with_cache
  fetch_with_cache-Answered key url kind s = at s.cache
    where
      at : (o : Option MemoryCache) → Answered url s (with_cache w p key url kind o s)
      at none = as_leader-Answered key url kind false s
      at (some c) = by_status-Answered key url kind _ s

-- ===== src/Client/Lookup/Keeps.antt =====
-- crates/rdapify-client/src/lib.rs: what the steps of `fetch_with_cache` and of a refresh keep, the whole
-- keeps.
use rdapify.Base.{◌≡◌, refl, subst, Bool, true, false, Option, none, some, List, if-both}
use rdapify.Base.Text.{Text}
use rdapify.Base.Result.{Result, ok, err}
use rdapify.Types.Error.{RdapError}
use rdapify.Cache.{
  MemoryCache, CacheStatus, fresh, stale, absent, miss, get_status, try_acquire_refresh,
}
use rdapify.Client.{QueryKind, Parts, Refresh, State, World}
use rdapify.Client.Lookup.{
  fetch_with_cache, with_cache, by_status, claimed, spawn, as_leader, admitted, live, as_follower,
  woken, drop_guard, rate_limit, in_cache, populate, populate_value, background_refresh,
  refresh_allowed, run_refresh,
}
use rdapify.Client.Lookup.Answers.{the_fetch}

-- A state with another cache.
abbrev pub with_store : MemoryCache → State → State
with_store c s = record s { cache = some c }

module _ (w : World) (p : Parts) where
  -- A state after a fetch, and what the cache keeps of it.
  abbrev pub after_fetch : Text → Text → QueryKind → State → State
  after_fetch key url kind s =
      in_cache (populate (w.instant (the_fetch w p url s).1.trace) key kind (the_fetch w p url s).0)
        (record s { fetch = (the_fetch w p url s).1 })

  abbrev pub after_refresh : Text → Text → QueryKind → State → State
  after_refresh key url kind s =
      in_cache
        (populate_value (w.instant (the_fetch w p url s).1.trace) key kind (the_fetch w p url s).0)
        (record s { fetch = (the_fetch w p url s).1 })

  -- The steps.
  pub record Steps (I : State → Type 0) : Type 0 where
    pub by_status_of :
        (key : Text) (c : MemoryCache) (s : State)
        → I (with_store c s)
        → I (with_store (get_status w.keeps (w.instant s.fetch.trace) key c).1 s)
    pub by_claim :
        (key : Text) (c : MemoryCache) (s : State)
        → I (with_store c s)
        → I (with_store (try_acquire_refresh (w.in_flight_len s.fetch.trace) key c).1 s)
    pub by_wait :
        (key : Text) (c : MemoryCache) (s : State)
        → I (with_store c s)
        → I (with_store (w.await_refresh s.fetch.trace key c) s)
    pub by_drop : (key : Text) (s : State) → I s → I (drop_guard key true s)
    pub by_fetch :
        (key url : Text) (kind : QueryKind) (s : State) → I s → I (after_fetch key url kind s)
    pub by_refresh :
        (key url : Text) (kind : QueryKind) (s : State) → I s → I (after_refresh key url kind s)
    pub by_spawn : (tasks : List Refresh) (s : State) → I s → I (record s { spawned = tasks })

  module _ (I : State → Type 0) (steps : Steps I) where
    dropped : (key : Text) (guard : Bool) (s : State) → I s → I (drop_guard key guard s)
    unfolding drop_guard
    dropped key true s i = steps.by_drop key s i
    dropped key false s i = i

    admitted_keeps :
        (key url : Text) (kind : QueryKind) (guard : Bool) (r : Result RdapError (Unit {0}))
        (s : State)
        → I s
        → I (admitted w p key url kind guard r s).1
    unfolding admitted live
    admitted_keeps key url kind guard (err e) s i = dropped key guard s i
    admitted_keeps key url kind guard (ok u) s i =
        dropped key guard (after_fetch key url kind s) (steps.by_fetch key url kind s i)

    as_leader_keeps :
        (key url : Text) (kind : QueryKind) (guard : Bool) (s : State)
        → I s
        → I (as_leader w p key url kind guard s).1
    unfolding as_leader
    as_leader_keeps key url kind guard s i =
        admitted_keeps key url kind guard (rate_limit w p url s) s i

    woken_keeps :
        (key url : Text) (kind : QueryKind) (o : CacheStatus × MemoryCache) (s : State)
        → I (with_store o.1 s)
        → I (woken w p key url kind o s).1
    unfolding woken
    woken_keeps key url kind (fresh v, c) s i = i
    woken_keeps key url kind (stale v, c) s i = i
    woken_keeps key url kind (absent, c) s i = i
    woken_keeps key url kind (miss, c) s i =
        as_leader_keeps key url kind (try_acquire_refresh (w.in_flight_len s.fetch.trace) key c).0
          (with_store (try_acquire_refresh (w.in_flight_len s.fetch.trace) key c).1 s)
          (steps.by_claim key c s i)

    claimed_keeps :
        (key url : Text) (kind : QueryKind) (o : Bool × MemoryCache) (s : State)
        → I (with_store o.1 s)
        → I (claimed w p key url kind o s).1
    unfolding claimed as_follower
    claimed_keeps key url kind (true, c) s i = as_leader_keeps key url kind true (with_store c s) i
    claimed_keeps key url kind (false, c) s i =
        let c' = w.await_refresh s.fetch.trace key c in
        woken_keeps key url kind (get_status w.keeps (w.instant s.fetch.trace) key c') s
          (steps.by_status_of key c' s (steps.by_wait key c s i))

    spawn_keeps :
        (key url : Text) (kind : QueryKind) (o : Bool × MemoryCache) (s : State)
        → I (with_store o.1 s)
        → I (spawn w p key url kind o s)
    unfolding spawn
    spawn_keeps key url kind (true, c) s i = steps.by_spawn _ (with_store c s) i
    spawn_keeps key url kind (false, c) s i = i

    by_status_keeps :
        (key url : Text) (kind : QueryKind) (o : CacheStatus × MemoryCache) (s : State)
        → I (with_store o.1 s)
        → I (by_status w p key url kind o s).1
    unfolding by_status
    by_status_keeps key url kind (fresh v, c) s i = i
    by_status_keeps key url kind (stale v, c) s i =
        spawn_keeps key url kind (try_acquire_refresh (w.in_flight_len s.fetch.trace) key c) s
          (steps.by_claim key c s i)
    by_status_keeps key url kind (absent, c) s i = i
    by_status_keeps key url kind (miss, c) s i =
        claimed_keeps key url kind (try_acquire_refresh (w.in_flight_len s.fetch.trace) key c) s
          (steps.by_claim key c s i)

    pub fetch_with_cache_keeps :
        (key url : Text) (kind : QueryKind) (s : State)
        → I s
        → I (fetch_with_cache w p key url kind s).1
    unfolding fetch_with_cache with_cache
    fetch_with_cache_keeps key url kind s i = at s.cache refl
      where
        at : (o : Option MemoryCache) → s.cache ≡ o → I (with_cache w p key url kind o s).1
        at none e = as_leader_keeps key url kind false s i
        at (some c) e =
            by_status_keeps key url kind (get_status w.keeps (w.instant s.fetch.trace) key c) s (
              steps.by_status_of key c s
                (subst (λ (o : Option MemoryCache). I (record s { cache = o })) e i))

    pub run_refresh_keeps : (task : Refresh) (s : State) → I s → I (run_refresh w p task s)
    unfolding run_refresh background_refresh
    run_refresh_keeps task s i =
        steps.by_drop task.key (background_refresh w p task.key task.url task.kind s) (
          if-both I (refresh_allowed w p task.url s) (after_refresh task.key task.url task.kind s) s
            (λ e. steps.by_refresh task.key task.url task.kind s i) (λ e. i))

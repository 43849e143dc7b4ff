-- ===== src/Client/Session/Stored.antt =====
-- crates/rdapify-client/src/lib.rs: what the client serves from its cache and from the network, over a
-- whole session.
use rdapify.Base.{ℕ, ◌≡◌, refl, subst, Bool, Option, none, some, List, ◌==◌, if-both}
use rdapify.Base.Text.{Text}
use rdapify.Base.Text.Keyed.{get-All}
use rdapify.Base.Result.{Result, ok, err}
use rdapify.Types.Error.{RdapError, http_status}
use rdapify.Net.{IpAddr}
use rdapify.Net.IpAddr.{v4, v6}
use rdapify.Security.Http.{Trace}
use rdapify.Core.Validation.{Value}
use rdapify.Core.Fetcher.Attempt.Sound.{Checked}
use rdapify.Core.Fetcher.Call.Checked.{fetch-Checked}
use rdapify.Cache.{Entry, MemoryCache, get_status, clear}
use rdapify.Cache.Freshness.{get_status_serves}
use rdapify.Cache.Store.{
  OfValue, Stored, get_status-Stored, set_with_ttl-Stored, set_negative-Stored,
  try_acquire_refresh-Stored, release-Stored,
}
use rdapify.Client.{QueryKind, Parts, State, World, clear_cache}
use rdapify.Client.Lookup.{fetch_with_cache, drop_guard, in_cache, populate, populate_value}
use rdapify.Client.Lookup.Answers.{the_fetch}
use rdapify.Client.Lookup.Values.{OfFound, OfStatus, fetch_with_cache-OfFound}
use rdapify.Client.Lookup.Keeps.{Steps, fetch_with_cache_keeps, run_refresh_keeps}
use rdapify.Client.Queries.{for_addr}
use rdapify.Client.Session.{Op, run, run_keeps, pick, refreshed}

module _ (w : World) (p : Parts) where
  -- A value that came through the gate of the fetcher.
  abbrev pub Vetted : Value → Type 0
  Vetted = Checked w.fetch p.fetcher

  abbrev pub HoldsIn : Option MemoryCache → Type 0
  HoldsIn none = Unit
  HoldsIn (some c) = Stored Vetted c

  -- All that the cache holds came through the gate.
  abbrev pub Holds : State → Type 0
  Holds s = HoldsIn s.cache

  in_cache-Holds :
      (f : MemoryCache → MemoryCache) (s : State)
      → ((c : MemoryCache) → Stored Vetted c → Stored Vetted (f c))
      → Holds s
      → Holds (in_cache f s)
  in_cache-Holds f s keeps h = at s.cache h
    where
      at : (o : Option MemoryCache) → HoldsIn o → Holds (in_cache f (record s { cache = o }))
      at none i = tt
      at (some c) i = keeps c i

  populate-Stored :
      (now : ℕ) (key : Text) (kind : QueryKind) (r : Result RdapError Value) (c : MemoryCache)
      → ((value : Value) → r ≡ ok value → Vetted value)
      → Stored Vetted c
      → Stored Vetted (populate now key kind r c)
  unfolding populate
  populate-Stored now key kind (ok value) c good h =
      set_with_ttl-Stored Vetted now key value _ c (good value refl) h
  populate-Stored now key kind (err (http_status status url)) c good h =
      if-both (Stored Vetted) (status == 404) _ _ (λ e. set_negative-Stored Vetted now key _ c h)
        (λ e. h)
  populate-Stored now key kind (err _) c good h = h

  populate_value-Stored :
      (now : ℕ) (key : Text) (kind : QueryKind) (r : Result RdapError Value) (c : MemoryCache)
      → ((value : Value) → r ≡ ok value → Vetted value)
      → Stored Vetted c
      → Stored Vetted (populate_value now key kind r c)
  unfolding populate_value
  populate_value-Stored now key kind (ok value) c good h =
      set_with_ttl-Stored Vetted now key value _ c (good value refl) h
  populate_value-Stored now key kind (err e) c good h = h

  -- What other tasks may do to the cache during a wait: they store values of their own fetches alone.
  abbrev pub Honest : Type 0
  Honest =
      (trace : Trace) (key : Text) (c : MemoryCache)
      → Stored Vetted c
      → Stored Vetted (w.await_refresh trace key c)

  module _ (honest : Honest) where
    steps-Holds : Steps w p Holds
    unfolding drop_guard
    steps-Holds = record {
      by_status_of =
          λ key c s i. get_status-Stored Vetted w.keeps (w.instant s.fetch.trace) key c i;
      by_claim =
          λ key c s i. try_acquire_refresh-Stored Vetted (w.in_flight_len s.fetch.trace) key c i;
      by_wait = λ key c s i. honest s.fetch.trace key c i;
      by_drop = λ key s i. in_cache-Holds _ s (λ c h. release-Stored Vetted key c h) i;
      by_fetch = λ key url kind s i.
          in_cache-Holds _ (record s { fetch = (the_fetch w p url s).1 })
            (λ c h.
              populate-Stored _ key kind (the_fetch w p url s).0 c
                (fetch-Checked w.fetch p.fetcher url s.fetch) h)
            i;
      by_refresh = λ key url kind s i.
          in_cache-Holds _ (record s { fetch = (the_fetch w p url s).1 })
            (λ c h.
              populate_value-Stored _ key kind (the_fetch w p url s).0 c
                (fetch-Checked w.fetch p.fetcher url s.fetch) h)
            i;
      by_spawn = λ tasks s i. i;
    }

    for_addr-Holds :
        (typed : Text) (a : IpAddr) (s : State) → Holds s → Holds (for_addr w p typed a s).1
    unfolding for_addr
    for_addr-Holds typed (v4 a) s i = i
    for_addr-Holds typed (v6 a) s i = i

    refreshed-Holds : (n : ℕ) (s : State) → Holds s → Holds (refreshed w p (pick n s.spawned) s)
    refreshed-Holds n s i = at (pick n s.spawned)
      where
        at : (o : Option (_ × _)) → Holds (refreshed w p o s)
        at none = i
        at (some (task, others)) =
            run_refresh_keeps w p Holds steps-Holds task (record s { spawned = others }) i

    clear_cache-Holds : (s : State) → Holds s → Holds (clear_cache s)
    unfolding clear_cache clear
    clear_cache-Holds s i = at s.cache
      where
        at : (o : Option MemoryCache) → Holds (clear_cache (record s { cache = o }))
        at none = tt
        at (some c) = tt

    run-Holds : (ops : List Op) (s : State) → Holds s → Holds (run w p ops s)
    run-Holds =
        run_keeps w p Holds (λ name s i. i) for_addr-Holds (λ n s i. i)
          (fetch_with_cache_keeps w p Holds steps-Holds) refreshed-Holds clear_cache-Holds

    looked-Vetted :
        (key : Text) (s : State) (c : MemoryCache)
        → Stored Vetted c
        → OfStatus Vetted (get_status w.keeps (w.instant s.fetch.trace) key c).0
    looked-Vetted key s c h value e =
        let (entry, there, is_hit, young) =
          get_status_serves w.keeps (w.instant s.fetch.trace) key c value e in
        subst (OfValue Vetted) is_hit
          (get-All (λ (x : Text × Entry). OfValue Vetted x.1.value) key entry c.store h there)

    -- Let a client start with a cache of values that passed the fetcher's checks (an empty one, say), and
    -- let other tasks store such values alone. Then after any session, a value that a lookup gives, from
    -- the cache or from the network, is the JSON value of a body within the size limit, and it keeps
    -- every limit of the configuration.
    pub session-Checked :
        (ops : List Op) (s : State)
        → Holds s
        → (key url : Text) (kind : QueryKind) (value : Value) (cached : Bool)
        → (fetch_with_cache w p key url kind (run w p ops s)).0 ≡ ok (value, cached)
        → Checked w.fetch p.fetcher value
    session-Checked ops s h key url kind value cached e = subst (OfFound Vetted) e (
        fetch_with_cache-OfFound w p Vetted
          (λ url' s'. fetch-Checked w.fetch p.fetcher url' s'.fetch) (Stored Vetted) looked-Vetted
          (λ key' s' c. get_status-Stored Vetted w.keeps (w.instant s'.fetch.trace) key' c)
          (λ n key' c. try_acquire_refresh-Stored Vetted n key' c)
          (λ key' s' c. honest s'.fetch.trace key' c) key url kind (run w p ops s)
          (run-Holds ops s h))

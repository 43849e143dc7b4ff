-- ===== src/Core/Fetcher/Call/Isolation.antt =====
-- Which breakers a logical call changes, and how.
use rdapify.Base.{
  ◌⊎◌, inl, inr, Bool-cases, ◌≡◌, refl, ap, ◌∙◌, Bool, true, false, Option, none, some,
}
use rdapify.Base.Text.{Text}
use rdapify.Base.Result.{Result, ok, err}
use rdapify.Types.Error.{RdapError, circuit_open}
use rdapify.Security.Guard
use rdapify.Core.Breaker.{
  Origin, CircuitBreaker, Registry, origin_eq, lookup, get_or_create, before_call, put_back,
}
use rdapify.Core.Breaker.Keys.{lookup-insert_same, lookup-insert_other, get_or_create_other}
use rdapify.Core.Fetcher.Attempt.{World, Fetcher, State}
use rdapify.Core.Fetcher.Retries.{Outcome, fetch_with_retry}
use rdapify.Core.Fetcher.Retries.Sound.{fetch_with_retry-Sound}
use rdapify.Core.Fetcher.Call.{
  origin_of, origin_text, record_result, after_ask, with_breaker, after_guard,
  fetch_with_cache_hint,
}

module _ (w : World) (f : Fetcher) where
  -- The breaker of an origin, as a call finds it.
  abbrev pub breaker_at : Origin → State → CircuitBreaker
  breaker_at o s = (get_or_create (w.holds s.log) o s.breakers).0

  -- No breaker but that of `o` is touched.
  abbrev Apart : Origin → State → Outcome → Type 0
  Apart k s o = lookup k o.1.breakers.entries ≡ lookup k s.breakers.entries

  -- It is as it was, or moka has dropped it.
  abbrev pub KeptOrDropped : Origin → State → State → Type 0
  KeptOrDropped k s s' =
      (lookup k s'.breakers.entries ≡ lookup k s.breakers.entries)
      ⊎ ((w.holds s.log k ≡ false) × (lookup k s'.breakers.entries ≡ none))

  after_ask-Apart :
      (url : Text) (o k : Origin) (admit : Bool) (b : CircuitBreaker) (s : State)
      → origin_eq o k ≡ false
      → Apart k s (after_ask w f url o admit b s)
  unfolding after_ask put_back
  after_ask-Apart url o k false b s h = refl
  after_ask-Apart url o k true b s h =
      lookup-insert_other o k _ (fetch_with_retry w f url o s).1.breakers.entries h
      ∙ ap (λ (reg : Registry). lookup k reg.entries) (fetch_with_retry-Sound w f url o s).breakers

  with_breaker-Apart :
      (url : Text) (o : Option Origin) (k : Origin) (s : State)
      → ((origin : Origin) → o ≡ some origin → origin_eq origin k ≡ false)
      → KeptOrDropped k s (with_breaker w f url o s).1
  unfolding with_breaker put_back
  with_breaker-Apart url none k s h = inl refl
  with_breaker-Apart url (some o) k s h =
      let (b, made) = get_or_create (w.holds s.log) o s.breakers in
      let (admit, b') = before_call (w.now s.log) b in
      let left =
        after_ask-Apart url o k admit b' (record s { breakers = put_back o b' made }) (h o refl)
        ∙ (lookup-insert_other o k b' made.entries (h o refl)
            ∙ get_or_create_other (w.holds s.log) o k s.breakers (h o refl)) in
      elim (Bool-cases (w.holds s.log k)) [
        | inl e ↦ inl (left ∙ rw e refl)
        | inr e ↦ inr (e, left ∙ rw e refl)
      ]

  -- Whatever becomes of a call, the breaker of any origin but its URL's is as it was, or is gone because
  -- the cache of the registry had dropped it by then.
  pub fetch_with_cache_hint_isolated :
      (url : Text) (k : Origin) (s : State)
      → ((origin : Origin) → origin_of (w.net.parse url) ≡ some origin → origin_eq origin k ≡ false)
      → KeptOrDropped k s (fetch_with_cache_hint w f url s).1
  unfolding fetch_with_cache_hint after_guard
  fetch_with_cache_hint_isolated url k s h = guarded (Guard.validate w.net f.ssrf url)
    where
      guarded : (r : Result RdapError (Unit {0})) → KeptOrDropped k s (after_guard w f url r s).1
      guarded (err e) = inl refl
      guarded (ok u) = with_breaker-Apart url (origin_of (w.net.parse url)) k s h

  -- What a call does once `before_call` has answered, where `s` has the breaker put back.
  abbrev pub Course : Text → Origin → Bool × CircuitBreaker → State → Outcome → Type 0
  Course url o (true, b) s (r, s') =
      (r ≡ (fetch_with_retry w f url o s).0)
      × (lookup o s'.breakers.entries ≡ some (record_result (w.now s'.log) r b))
  Course url o (false, b) s (r, s') =
      (r ≡ err (circuit_open (origin_text o)))
      × (s'.trace ≡ s.trace)
      × (s'.log ≡ s.log)
      × (lookup o s'.breakers.entries ≡ some b)

  -- The state in which the loop runs.
  abbrev pub asked : Origin → State → State
  asked o s = record s {
    breakers =
        put_back o (before_call (w.now s.log) (breaker_at o s)).1
          (get_or_create (w.holds s.log) o s.breakers).1;
  }

  after_ask-Course :
      (url : Text) (o : Origin) (answer : Bool × CircuitBreaker) (s : State)
      → lookup o s.breakers.entries ≡ some answer.1
      → Course url o answer s (after_ask w f url o answer.0 answer.1 s)
  unfolding after_ask put_back
  after_ask-Course url o (true, b) s h =
      (refl, lookup-insert_same o _ (fetch_with_retry w f url o s).1.breakers.entries)
  after_ask-Course url o (false, b) s h = (refl, refl, refl, h)

  -- The course of a call that the guard lets through to an origin.
  pub fetch_with_cache_hint-Course :
      (url : Text) (o : Origin) (s : State)
      → Guard.validate w.net f.ssrf url ≡ ok tt
      → origin_of (w.net.parse url) ≡ some o
      → Course url o
          (before_call (w.now s.log) (breaker_at o s))
          (asked o s)
          (fetch_with_cache_hint w f url s)
  unfolding fetch_with_cache_hint after_guard with_breaker put_back
  fetch_with_cache_hint-Course url o s g h =
      rw (g, h)
        (after_ask-Course url o (before_call (w.now s.log) (breaker_at o s)) (asked o s)
          (lookup-insert_same o _ (get_or_create (w.holds s.log) o s.breakers).1.entries))

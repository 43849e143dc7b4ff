-- ===== src/Core/Fetcher/Call/Checked.antt =====
-- crates/rdap-core/src/fetcher.rs: what a logical call gives, on every path through the guard, the
-- breaker and the loop.
use rdapify.Base.{ℕ, subst, ◌≡◌, Bool, true, false, Option, none, some}
use rdapify.Base.Text.{Text}
use rdapify.Base.Result.{Result, ok, err, ◌>>=◌}
use rdapify.Types.Error.{RdapError}
use rdapify.Security.Egress.Vetted.{Clean}
use rdapify.Security.Guard
use rdapify.Core.Breaker.{Origin, CircuitBreaker, before_call, get_or_create}
use rdapify.Core.Validation.{Value}
use rdapify.Core.Fetcher.Attempt.{World, Fetcher, State}
use rdapify.Core.Fetcher.Attempt.Sound.{Checked}
use rdapify.Core.Fetcher.Retries.{Fetched, Outcome}
use rdapify.Core.Fetcher.Retries.Sound.{GenuineResult, fetch_with_retry-Sound}
use rdapify.Core.Fetcher.Call.{
  origin_of, after_ask, with_breaker, after_guard, fetch_with_cache_hint, fetch,
}

module _ (w : World) (f : Fetcher) where
  record Safe (s : State) (o : Outcome) : Type 0 where
    genuine : GenuineResult w f o.0
    clean : Guard.is_enabled f.ssrf ≡ true → Clean s.trace → Clean o.1.trace

  after_ask-Safe :
      (url : Text) (origin : Origin) (admit : Bool) (b : CircuitBreaker) (s : State)
      → Safe s (after_ask w f url origin admit b s)
  unfolding after_ask
  after_ask-Safe url origin false b s = record { genuine = tt; clean = λ on c. c }
  after_ask-Safe url origin true b s =
      let h = fetch_with_retry-Sound w f url origin s in
      record { genuine = h.genuine; clean = h.clean }

  with_breaker-Safe :
      (url : Text) (origin : Option Origin) (s : State) → Safe s (with_breaker w f url origin s)
  unfolding with_breaker
  with_breaker-Safe url none s = record { genuine = tt; clean = λ on c. c }
  with_breaker-Safe url (some origin) s =
      let (b, made) = get_or_create (w.holds s.log) origin s.breakers in
      let (admit, b') = before_call (w.now s.log) b in
      let h = after_ask-Safe url origin admit b' _ in
      record { genuine = h.genuine; clean = h.clean }

  fetch_with_cache_hint-Safe : (url : Text) (s : State) → Safe s (fetch_with_cache_hint w f url s)
  unfolding fetch_with_cache_hint after_guard
  fetch_with_cache_hint-Safe url s = guarded (Guard.validate w.net f.ssrf url)
    where
      guarded : (r : Result RdapError (Unit {0})) → Safe s (after_guard w f url r s)
      guarded (err e) = record { genuine = tt; clean = λ on c. c }
      guarded (ok u) = with_breaker-Safe url (origin_of (w.net.parse url)) s

  -- Whatever the upstreams answer, a value that `fetch` returns is the JSON value of a body within
  -- the size limit, and it keeps every limit of the configuration.
  pub fetch-Checked :
      (url : Text) (s : State) (value : Value) → (fetch w f url s).0 ≡ ok value → Checked w f value
  unfolding fetch
  fetch-Checked url s value h =
      fetched-Checked (fetch_with_cache_hint w f url s).0 (fetch_with_cache_hint-Safe url s).genuine
        h
    where
      fetched-Checked :
          (r : Fetched)
          → GenuineResult w f r
          → (r >>= λ (fetched : Value × Option ℕ). ok fetched.0) ≡ ok value
          → Checked w f value
      fetched-Checked (err e) g h = absurd (cc h)
      fetched-Checked (ok (v, hint)) g h = subst (Checked w f) (cc h) g

  -- With the guard enabled, a call to `fetch` keeps a clean trace clean: all its requests go through
  -- the security pipeline, to safe URLs, each directly after a lookup of the URL's host text, if it has
  -- one, that gave an address and no blocked one.
  pub fetch-Clean :
      (url : Text) (s : State)
      → Guard.is_enabled f.ssrf ≡ true
      → Clean s.trace
      → Clean (fetch w f url s).1.trace
  unfolding fetch
  fetch-Clean url s = (fetch_with_cache_hint-Safe url s).clean

-- ===== src/Core/Fetcher/Call/Built.antt =====
-- crates/rdap-core/src/fetcher.rs: a fetcher as `with_full_dependencies` builds it.
use rdapify.Base.{
  suc, ◌+◌, ◌-◌, ◌*◌, ◌≤◌, ◌≡◌, refl, subst, Bool, true, false, Option, none, some, min, arith,
}
use rdapify.Base.Text.{Text}
use rdapify.Base.Result.{Result, ok, err, ◌>>=◌}
use rdapify.Types.Error.{RdapError}
use rdapify.Security.Egress.Limits.{requests}
use rdapify.Security.Guard
use rdapify.Security.Guard.{SsrfGuard}
use rdapify.Core.Breaker.{Origin, CircuitBreaker, get_or_create, before_call}
use rdapify.Core.Fetcher.Config
use rdapify.Core.Fetcher.Config.{FetcherConfig}
use rdapify.Core.Fetcher.Config.Bounds.{IsSafe, validate-IsSafe_iff}
use rdapify.Core.Fetcher.Attempt.{World, Fetcher, State}
use rdapify.Core.Fetcher.Retries.{Outcome}
use rdapify.Core.Fetcher.Retries.Requests.{fetch_with_retry-Few}
use rdapify.Core.Fetcher.Call.{
  with_full_dependencies, origin_of, after_ask, with_breaker, after_guard, fetch_with_cache_hint,
  fetch,
}

module _ (w : World) (f : Fetcher) where
  abbrev Few : State → Outcome → Type 0
  Few s o =
      requests o.1.trace
      ≤ requests s.trace
        + suc (min (f.config.max_attempts - 1) 3) * suc f.egress_policy.max_redirects

  after_ask-Few :
      (url : Text) (origin : Origin) (admit : Bool) (b : CircuitBreaker) (s : State)
      → Few s (after_ask w f url origin admit b s)
  unfolding after_ask
  after_ask-Few url origin false b s = omega arith
  after_ask-Few url origin true b s = fetch_with_retry-Few w f url origin s

  with_breaker-Few :
      (url : Text) (origin : Option Origin) (s : State) → Few s (with_breaker w f url origin s)
  unfolding with_breaker
  with_breaker-Few url none s = omega arith
  with_breaker-Few url (some origin) s =
      let (b, made) = get_or_create (w.holds s.log) origin s.breakers in
      let (admit, b') = before_call (w.now s.log) b in after_ask-Few url origin admit b' _

  fetch-Few : (url : Text) (s : State) → Few s (fetch_with_cache_hint w f url s)
  unfolding fetch_with_cache_hint after_guard
  fetch-Few url s = guarded (Guard.validate w.net f.ssrf url)
    where
      guarded : (r : Result RdapError (Unit {0})) → Few s (after_guard w f url r s)
      guarded (err e) = omega arith
      guarded (ok u) = with_breaker-Few url (origin_of (w.net.parse url)) s

checked_ok :
    (r : Result RdapError (Unit {0})) (g f : Fetcher)
    → (r >>= λ _. ok g) ≡ ok f
    → (r ≡ ok tt) × (g ≡ f)
checked_ok (err e) g f h = absurd (cc h)
checked_ok (ok u) g f h = (refl, cc h)

-- What the constructor promises of its result.
abbrev Built : SsrfGuard → Fetcher → Type 0
Built ssrf f = IsSafe f.config × (f.ssrf ≡ ssrf) × (f.egress_policy.max_redirects ≡ 5)

with_full_dependencies-Built :
    (ssrf : SsrfGuard) (config : FetcherConfig) (f : Fetcher)
    → with_full_dependencies ssrf config ≡ ok f
    → Built ssrf f
unfolding with_full_dependencies
with_full_dependencies-Built ssrf config f h =
    let (passed, same) = checked_ok (Config.validate config) _ f h in
    subst (Built ssrf) same ((validate-IsSafe_iff config).0 passed, refl, refl)

-- A fetcher that the constructor builds has a safe configuration and the guard that it was given, and
-- a call on it sends at most 24 requests: four tries of a request and five redirects.
pub with_full_dependencies-requests :
    (w : World) (ssrf : SsrfGuard) (config : FetcherConfig) (f : Fetcher) (url : Text) (s : State)
    → with_full_dependencies ssrf config ≡ ok f
    → IsSafe f.config
      × (f.ssrf ≡ ssrf)
      × (requests (fetch w f url s).1.trace ≤ requests s.trace + 24)
unfolding fetch
with_full_dependencies-requests w ssrf config f url s h =
    let (safe, guard, five) = with_full_dependencies-Built ssrf config f h in
    let before = requests s.trace in
    let after = requests (fetch_with_cache_hint w f url s).1.trace in
    let m = f.config.max_attempts in
    let few : after ≤ before + suc (min (m - 1) 3) * 6 =
      subst (λ k. after ≤ before + suc (min (m - 1) 3) * suc k) five (fetch-Few w f url s) in
    (safe, guard, omega (arith, few))

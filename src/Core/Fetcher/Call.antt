-- ===== src/Core/Fetcher/Call.antt =====
-- crates/rdap-core/src/fetcher.rs: one logical call, through the guard, the breaker of the origin, the
-- loop, and the breaker again.
pub mod Checked
pub mod Built
pub mod Isolation
pub mod Events
pub mod Probe
use rdapify.Base.{ℕ, Bool, true, false, Option, none, some, ◌++◌, if◌then◌else◌}
use rdapify.Base.Text.{Text, text}
use rdapify.Base.Text.Number.{print_unsigned}
use rdapify.Base.Result.{Result, ok, err, ◌>>=◌}
use rdapify.Types.Error.{RdapError, invalid_input, circuit_open}
use rdapify.Security.Url.{Url}
use rdapify.Security.Guard
use rdapify.Security.Guard.{SsrfGuard}
use rdapify.Security.Egress.{default_policy}
use rdapify.Core.Breaker.{
  Origin, CircuitBreaker, from_url, get_or_create, put_back, before_call, on_success, on_failure,
}
use rdapify.Core.Retry.{is_breaker_failure}
use rdapify.Core.Validation.{Value}
use rdapify.Core.Fetcher.Config
use rdapify.Core.Fetcher.Config.{FetcherConfig}
use rdapify.Core.Fetcher.Attempt.{World, Fetcher, State}
use rdapify.Core.Fetcher.Retries.{Fetched, Outcome, fetch_with_retry}

-- The HTTP client, the semaphore and the registry that come with it are in `World` and `State`.
unfoldable pub with_full_dependencies : SsrfGuard → FetcherConfig → Result RdapError Fetcher
with_full_dependencies ssrf config = Config.validate config >>= λ _. ok (record {
  ssrf = ssrf;
  config = config;
  egress_policy = record default_policy { timeout = config.timeout };
})

-- `Display` of an origin.
unfoldable pub origin_text : Origin → Text
origin_text o = o.scheme ++ (text "://" ++ (o.host ++ (text ":" ++ print_unsigned o.port)))

-- The one event of a call on its breaker.
unfoldable pub record_result : ℕ → Fetched → CircuitBreaker → CircuitBreaker
record_result now (ok fetched) b = on_success b
record_result now (err e) b = if is_breaker_failure e then on_failure now b else b

abbrev pub origin_of : Option Url → Option Origin
origin_of none = none
origin_of (some url) = from_url url

module _ (w : World) (f : Fetcher) where
  -- After `before_call`, with its answer and the breaker as it left it.
  unfoldable pub after_ask : Text → Origin → Bool → CircuitBreaker → State → Outcome
  after_ask url origin false b s = (err (circuit_open (origin_text origin)), s)
  after_ask url origin true b s =
      let (r, s') = fetch_with_retry w f url origin s in
      let b' = record_result (w.now s'.log) r b in
      (r, record s' { breakers = put_back origin b' s'.breakers })

  unfoldable pub with_breaker : Text → Option Origin → State → Outcome
  with_breaker url none s = (err invalid_input, s)
  with_breaker url (some origin) s =
      let (b, made) = get_or_create (w.holds s.log) origin s.breakers in
      let (admit, b') = before_call (w.now s.log) b in
      after_ask url origin admit b' (record s { breakers = put_back origin b' made })

  unfoldable pub after_guard : Text → Result RdapError (Unit {0}) → State → Outcome
  after_guard url (err e) s = (err e, s)
  after_guard url (ok _) s = with_breaker url (origin_of (w.net.parse url)) s

  unfoldable pub fetch_with_cache_hint : Text → State → Outcome
  fetch_with_cache_hint url s = after_guard url (Guard.validate w.net f.ssrf url) s

  unfoldable pub fetch : Text → State → Result RdapError Value × State
  fetch url s =
      let (r, s') = fetch_with_cache_hint url s in
      (r >>= λ (fetched : Value × Option ℕ). ok fetched.0, s')

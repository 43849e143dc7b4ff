-- ===== src/Core/Fetcher/Tests.antt =====
-- The theorems about the fetcher at concrete inputs.
use mathlib.Core.Option.{some-injective}
use rdapify.Base.{some, any, subst, suc, ◌+◌, ◌-◌, ◌*◌, ◌≤◌, ◌≡◌, refl, false, [], ◌∷◌, min, arith}
use rdapify.Base.Text.{text, text_eq, to_lowercase, lower, eq_ignore_ascii_case, is_empty}
use rdapify.Base.Result.{err}
use rdapify.Types.Error.{http_status, circuit_open}
use rdapify.Security.Url.{Url, domain}
use rdapify.Security.Egress.{default_policy}
use rdapify.Security.Egress.Vetted.{Clean}
use rdapify.Security.Guard
use rdapify.Net.{v4}
use rdapify.Core.Breaker.{
  Origin, Registry, CircuitBreaker, opened, origin_eq, from_url, lookup, before_call,
}
use rdapify.Net
use rdapify.Security.Ip
use rdapify.Security.Url
use rdapify.Security.Egress
use rdapify.Core.Breaker
use rdapify.Core.Retry
use rdapify.Core.Retry.{is_breaker_failure}
use rdapify.Core.Fetcher.Attempt
use rdapify.Core.Fetcher.Retries
use rdapify.Core.Fetcher.Call
use rdapify.Core.Validation.{null}
use rdapify.Core.Fetcher.Config.{default_config, validate}
use rdapify.Core.Fetcher.Config.Bounds.{IsSafe}
use rdapify.Core.Fetcher.Attempt.{Fetcher, World, State}
use rdapify.Core.Fetcher.Attempt.Sound.{Checked}
use rdapify.Core.Fetcher.Retries.{fetch_with_retry}
use rdapify.Core.Fetcher.Retries.Budget.{attempts, asleep, fetch_with_retry-Within}
use rdapify.Core.Fetcher.Retries.Permits.{Idle, Orderly, fetch_with_retry-Orderly}
use rdapify.Core.Fetcher.Retries.Rounds.{longest_sleep}
use rdapify.Security.Egress.Limits.{requests}
use rdapify.Core.Fetcher.Config.{rate_out_of_range}
use rdapify.Core.Fetcher.Call.Built.{with_full_dependencies-requests}
use rdapify.Core.Fetcher.Call.{with_full_dependencies, origin_text, fetch, fetch_with_cache_hint}
use rdapify.Core.Fetcher.Call.Checked.{fetch-Checked, fetch-Clean}
use rdapify.Core.Fetcher.Call.Isolation.{
  breaker_at, asked, KeptOrDropped, fetch_with_cache_hint_isolated,
}
use rdapify.Core.Fetcher.Sample.{origin, elsewhere, world, fetcher, fresh, served}
use rdapify.Core.Fetcher.Call.Events.{Admits, Refuses, Recorded, fetch_with_cache_hint-Recorded}
use rdapify.Core.Fetcher.Call.Probe.{calls, uncounted_probe_is_final}

abbrev fetcher_built : Fetcher
fetcher_built = record {
  ssrf = fetcher.ssrf;
  config = default_config (text "rdapify");
  egress_policy = record default_policy { timeout = 5000 };
}

abbrev open_breaker : CircuitBreaker
open_breaker = record {
  state = opened;
  consecutive_failures = 5;
  opened_at_ms = 1000;
  failure_threshold = 5;
  cooldown_ms = 30000;
}

abbrev tripped : State
tripped = record fresh {
  breakers = record {
    entries = (origin, open_breaker) ∷ [];
    failure_threshold = 5;
    cooldown_ms = 30000;
  };
}

fetch_with_retry-Within_example :
    let s' = (fetch_with_retry (world 503) fetcher (text "u") origin fresh).1 in
    let retries = min (fetcher.config.max_attempts - 1) 3 in
    (attempts s'.log ≤ suc retries + attempts fresh.log)
    × (asleep s'.log ≤ retries * longest_sleep fetcher + asleep fresh.log)
fetch_with_retry-Within_example =
    fetch_with_retry-Within (world 503) fetcher (λ log upper. omega arith) (text "u") origin fresh

fetch_with_retry-Orderly_example :
    Orderly (fetch_with_retry (world 503) fetcher (text "u") origin fresh).1.log
    × Idle (fetch_with_retry (world 503) fetcher (text "u") origin fresh).1.log
fetch_with_retry-Orderly_example =
    fetch_with_retry-Orderly (world 503) fetcher (λ log upper. omega arith) (text "u") origin fresh
      (refl, refl) tt

fetch-Clean_example : Clean (fetch (world 200) fetcher (text "u") fresh).1.trace
unfolding Guard.is_enabled
fetch-Clean_example = fetch-Clean (world 200) fetcher (text "u") fresh refl tt

not_found :
    (fetch_with_cache_hint (world 404) fetcher (text "u") tripped).0
    ≡ err (http_status 404 (text "u"))
unfolding fetch_with_cache_hint Call.after_guard Guard.validate text_eq Guard.check_host any
    Call.with_breaker from_url Call.after_ask before_call Breaker.get_or_create Breaker.evict lookup
    Breaker.with_config fetch_with_retry Retries.retry default_config Retries.settle
    Attempt.attempt_once Attempt.take_global Attempt.take_per_host Attempt.under_permits
    Attempt.do_fetch_with_headers Attempt.per_host_semaphore Attempt.send_validated Guard.is_enabled
    Egress.secure_request Url.validate_url Egress.resolve_host Egress.vet_host
    Url.validate_resolved_ips Ip.is_blocked_ip Ip.canonicalize Ip.is_broadcast Ip.is_cgnat_v4
    Ip.is_link_local Ip.is_loopback Ip.is_private_ip Ip.is_private_v4 Ip.is_special_use
    Ip.is_test_net_v4 Ip.is_unspecified Net.is_broadcast_v4 Net.is_link_local_v4 Net.is_loopback_v4
    Net.is_private_std_v4 Net.is_unspecified_v4 eq_ignore_ascii_case is_empty to_lowercase lower
    origin_eq Breaker.insert Breaker.put_back Egress.follow Egress.receive is_breaker_failure
    Retry.retry_limit Retry.parse_retry_after
not_found = refl

fetch-Checked_example : Checked (world 200) fetcher null
fetch-Checked_example = fetch-Checked (world 200) fetcher (text "u") fresh null served

fetch_with_cache_hint_isolated_example :
    KeptOrDropped
      (world 503)
      fetcher
      elsewhere
      fresh
      (fetch_with_cache_hint (world 503) fetcher (text "u") fresh).1
unfolding from_url to_lowercase origin_eq text_eq
fetch_with_cache_hint_isolated_example =
    fetch_with_cache_hint_isolated (world 503) fetcher (text "u") elsewhere fresh
      (λ o h. subst (λ o. origin_eq o elsewhere ≡ false) (some-injective origin o h) refl)

fetch_with_cache_hint-Recorded_example :
    let b = breaker_at (world 404) fetcher origin tripped in
    let (r, s') = fetch_with_cache_hint (world 404) fetcher (text "u") tripped in
    (Admits 50000 b
      → (r
          ≡ (fetch_with_retry
              (world 404)
              fetcher
              (text "u")
              origin
              (asked (world 404) fetcher origin tripped)).0)
        × (b' : CircuitBreaker) × (lookup origin s'.breakers.entries ≡ some b')
        × Recorded 50000 b r b')
    × (Refuses 50000 b
        → (r ≡ err (circuit_open (origin_text origin)))
          × (s'.trace ≡ tripped.trace)
          × (s'.log ≡ tripped.log)
          × (lookup origin s'.breakers.entries ≡ some b))
unfolding Guard.validate text_eq Guard.check_host any from_url to_lowercase
fetch_with_cache_hint-Recorded_example =
    fetch_with_cache_hint-Recorded (world 404) fetcher (text "u") origin tripped refl refl

uncounted_probe_is_final_example :
    let s = (fetch_with_cache_hint (world 404) fetcher (text "u") tripped).1 in
    (fetch_with_cache_hint
      (world 404)
      fetcher
      (text "u")
      (calls (world 404) fetcher (text "u" ∷ []) s)).0
    ≡ err (circuit_open (origin_text origin))
unfolding Guard.validate text_eq Guard.check_host any from_url to_lowercase origin_eq lookup
    is_breaker_failure
uncounted_probe_is_final_example =
    uncounted_probe_is_final (world 404) fetcher (text "u") origin open_breaker tripped
      (http_status 404 (text "u")) (λ log. refl) refl refl (omega arith) refl refl not_found refl
      (text "u" ∷ [])

with_full_dependencies-requests_example :
    IsSafe fetcher_built.config
    × (fetcher_built.ssrf ≡ fetcher.ssrf)
    × (requests (fetch (world 503) fetcher_built (text "u") fresh).1.trace ≤ 0 + 24)
unfolding with_full_dependencies validate default_config rate_out_of_range
with_full_dependencies-requests_example =
    with_full_dependencies-requests (world 503) fetcher.ssrf (default_config (text "rdapify"))
      fetcher_built (text "u") fresh refl

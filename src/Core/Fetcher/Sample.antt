-- ===== src/Core/Fetcher/Sample.antt =====
-- A registry and a fetcher for tests.
use rdapify.Base.{any, ℕ, ◌≡◌, refl, true, false, none, some, [], ◌∷◌, ◌==◌}
use rdapify.Base.Text.{Text, text, text_eq, to_lowercase, lower, eq_ignore_ascii_case, is_empty}
use rdapify.Base.Result.{ok, err}
use rdapify.Types.Error.{http_status}
use rdapify.Security.Url.{Url, domain}
use rdapify.Security.Http.{Response, answered, bytes}
use rdapify.Security.Egress.{default_policy}
use rdapify.Security.Guard
use rdapify.Net.{v4}
use rdapify.Core.Breaker.{
  Origin, Registry, CircuitBreaker, opened, origin_eq, from_url, lookup, before_call,
}
use rdapify.Net
use rdapify.Security.Ip
use rdapify.Security.Url
use rdapify.Security.Egress
use rdapify.Core.Breaker
use rdapify.Core.Retry
use rdapify.Core.Retry.{is_breaker_failure}
use rdapify.Core.Validation
use rdapify.Core.Fetcher.Attempt
use rdapify.Core.Fetcher.Retries
use rdapify.Core.Fetcher.Call
use rdapify.Core.Validation.{Value, null}
use rdapify.Core.Fetcher.Config.{default_config}
use rdapify.Core.Fetcher.Attempt.{Fetcher, World, State}
use rdapify.Core.Fetcher.Retries.{fetch_with_retry}
use rdapify.Core.Fetcher.Call.{with_full_dependencies, origin_text, fetch, fetch_with_cache_hint}

abbrev pub host : Text
host = text "a"

abbrev pub url : Url
url = record {
  as_str = text "https://a";
  scheme = text "https";
  username = [];
  password = none;
  host = some (domain host);
  host_str = some host;
  port_or_known_default = some 443;
}

abbrev pub origin : Origin
origin = record { scheme = text "https"; host = host; port = 443 }

abbrev pub elsewhere : Origin
elsewhere = record { scheme = text "https"; host = text "b"; port = 443 }

abbrev pub response : ℕ → Response
response status = record {
  status = status;
  location = none;
  content_type = none;
  retry_after = none;
  cache_control = none;
  content_length = none;
  body = bytes (text "{}") ∷ [];
}

-- A registry that answers with a status of its own, 200 for success.
abbrev pub world : ℕ → World
world status = record {
  net = record {
    parse = λ t. some url;
    join = λ base t. some url;
    is_redirection = λ status. false;
    is_success = λ status. status == 200;
    lookup_host = λ trace host. some (v4 (record { bits = 0x0808_0808 }) ∷ []);
    send = λ trace url. answered (response status);
  };
  get = λ trace url. answered (response status);
  from_slice = λ body. some null;
  parse_from_rfc2822 = λ date. none;
  now = λ log. 50000;
  gen_range = λ log upper. upper;
  permits = λ log permit. true;
  holds = λ log origin. true;
}

abbrev pub fetcher : Fetcher
fetcher = record {
  ssrf = record { enabled = true; blocked_domains = []; allowed_domains = [] };
  config = default_config (text "rdapify");
  egress_policy = default_policy;
}

abbrev pub fresh : State
fresh = record {
  trace = [];
  log = [];
  semaphores = [];
  breakers = record { entries = []; failure_threshold = 5; cooldown_ms = 30000 };
}

pub served : (fetch (world 200) fetcher (text "u") fresh).0 ≡ ok null
unfolding fetch fetch_with_cache_hint Call.after_guard Guard.validate text_eq Guard.check_host any
    Call.with_breaker from_url Call.after_ask before_call Breaker.get_or_create Breaker.evict lookup
    Breaker.with_config fetch_with_retry Retries.retry default_config Retries.settle
    Attempt.attempt_once Attempt.take_global Attempt.take_per_host Attempt.under_permits
    Attempt.do_fetch_with_headers Attempt.per_host_semaphore Attempt.send_validated Guard.is_enabled
    Egress.secure_request Url.validate_url Egress.resolve_host Egress.vet_host
    Url.validate_resolved_ips Ip.is_blocked_ip Ip.canonicalize Ip.is_broadcast Ip.is_cgnat_v4
    Ip.is_link_local Ip.is_loopback Ip.is_private_ip Ip.is_private_v4 Ip.is_special_use
    Ip.is_test_net_v4 Ip.is_unspecified Net.is_broadcast_v4 Net.is_link_local_v4 Net.is_loopback_v4
    Net.is_private_std_v4 Net.is_unspecified_v4 eq_ignore_ascii_case is_empty to_lowercase lower
    origin_eq Breaker.insert Breaker.put_back Egress.follow Egress.receive Egress.read_limited
    Egress.read_chunks Retry.parse_cache_control Validation.validate_rdap_response
    Validation.validate_json_structure Validation.walk Validation.visit
    Validation.validate_rdap_object
served = refl

pub not_found_fresh :
    (fetch (world 404) fetcher (text "u") fresh).0 ≡ err (http_status 404 (text "u"))
unfolding fetch fetch_with_cache_hint Call.after_guard Guard.validate text_eq Guard.check_host any
    Call.with_breaker from_url Call.after_ask before_call Breaker.get_or_create Breaker.evict lookup
    Breaker.with_config fetch_with_retry Retries.retry default_config Retries.settle
    Attempt.attempt_once Attempt.take_global Attempt.take_per_host Attempt.under_permits
    Attempt.do_fetch_with_headers Attempt.per_host_semaphore Attempt.send_validated Guard.is_enabled
    Egress.secure_request Url.validate_url Egress.resolve_host Egress.vet_host
    Url.validate_resolved_ips Ip.is_blocked_ip Ip.canonicalize Ip.is_broadcast Ip.is_cgnat_v4
    Ip.is_link_local Ip.is_loopback Ip.is_private_ip Ip.is_private_v4 Ip.is_special_use
    Ip.is_test_net_v4 Ip.is_unspecified Net.is_broadcast_v4 Net.is_link_local_v4 Net.is_loopback_v4
    Net.is_private_std_v4 Net.is_unspecified_v4 eq_ignore_ascii_case is_empty to_lowercase lower
    origin_eq Breaker.insert Breaker.put_back Egress.follow Egress.receive is_breaker_failure
    Retry.retry_limit Retry.parse_retry_after
not_found_fresh = refl

-- ===== src/Types/Error.antt =====
-- crates/rdap-types/src/error.rs. Free text for people (the messages of `InvalidInput`, `ParseError`
-- and `Cache`, the `reason` of `SsrfBlocked`, the sources of `Network` and `InvalidUrl`) is left out.
use rdapify.Base.{ℕ, Bool, true, false}
use rdapify.Base.Text.{Text}

pub data RdapError : Type 0 where
  invalid_input : RdapError
  ssrf_blocked : Text → RdapError
  insecure_scheme : Text → RdapError
  no_server_found : Text → RdapError
  bootstrap_fetch : Text → RdapError → RdapError
  network : RdapError
  http_status : ℕ → Text → RdapError
  timeout : ℕ → Text → RdapError
  parse_error : RdapError
  missing_object_class : RdapError
  unknown_object_class : Text → RdapError
  cache : RdapError
  invalid_url : Text → RdapError
  rate_limited : Text → ℕ → RdapError
  circuit_open : Text → RdapError

unfoldable pub status_code : RdapError → ℕ
status_code invalid_input = 400
status_code (ssrf_blocked _) = 403
status_code (insecure_scheme _) = 403
status_code (no_server_found _) = 404
status_code (http_status status _) = status
status_code (timeout _ _) = 408
status_code (rate_limited _ _) = 429
status_code network = 502
status_code (bootstrap_fetch _ _) = 502
status_code parse_error = 500
status_code missing_object_class = 500
status_code (unknown_object_class _) = 500
status_code cache = 500
status_code (invalid_url _) = 400
status_code (circuit_open _) = 503

unfoldable pub is_circuit_open : RdapError → Bool
is_circuit_open (circuit_open _) = true
is_circuit_open _ = false

unfoldable pub is_invalid_input : RdapError → Bool
is_invalid_input invalid_input = true
is_invalid_input _ = false

unfoldable pub is_network : RdapError → Bool
is_network network = true
is_network (timeout _ _) = true
is_network (http_status _ _) = true
is_network _ = false

unfoldable pub is_ssrf_blocked : RdapError → Bool
is_ssrf_blocked (ssrf_blocked _) = true
is_ssrf_blocked (insecure_scheme _) = true
is_ssrf_blocked _ = false

unfoldable pub is_rate_limited : RdapError → Bool
is_rate_limited (rate_limited _ _) = true
is_rate_limited _ = false

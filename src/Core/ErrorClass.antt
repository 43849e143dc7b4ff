-- ===== src/Core/ErrorClass.antt =====
-- crates/rdap-core/src/error_class.rs: the classes that metrics and traces show for an error.
use rdapify.Base.{◌==◌, leb, if◌then◌else◌}
use rdapify.Base.Text.{Text, text}
use rdapify.Types.Error
use rdapify.Types.Error.{RdapError}

pub data ErrorClass : Type 0 where
  network timeout rate_limited invalid_response circuit_open internal : ErrorClass

unfoldable pub metric_label : ErrorClass → Text
metric_label network = text "network"
metric_label timeout = text "timeout"
metric_label rate_limited = text "rate_limited"
metric_label invalid_response = text "invalid_response"
metric_label circuit_open = text "circuit_open"
metric_label internal = text "internal"

pub data RetryClass : Type 0 where
  network timeout rate_limited http_5xx http_4xx : RetryClass

unfoldable pub retry_label : RetryClass → Text
retry_label RetryClass.network = text "network"
retry_label RetryClass.timeout = text "timeout"
retry_label RetryClass.rate_limited = text "rate_limited"
retry_label http_5xx = text "http_5xx"
retry_label http_4xx = text "http_4xx"

unfoldable pub classify_error : RdapError → ErrorClass
classify_error Error.network = ErrorClass.network
classify_error (Error.timeout _ _) = ErrorClass.timeout
classify_error (Error.http_status status _) =
    if status == 429 then ErrorClass.rate_limited else invalid_response
classify_error (Error.rate_limited _ _) = ErrorClass.rate_limited
classify_error (Error.circuit_open _) = circuit_open
classify_error (Error.ssrf_blocked _) = invalid_response
classify_error (Error.insecure_scheme _) = invalid_response
classify_error Error.parse_error = invalid_response
classify_error Error.invalid_input = invalid_response
classify_error (Error.invalid_url _) = invalid_response
classify_error Error.missing_object_class = invalid_response
classify_error (Error.unknown_object_class _) = invalid_response
classify_error (Error.no_server_found _) = internal
classify_error (Error.bootstrap_fetch _ _) = internal
classify_error Error.cache = internal

unfoldable pub classify_retry : RdapError → RetryClass
classify_retry Error.network = RetryClass.network
classify_retry (Error.timeout _ _) = RetryClass.timeout
classify_retry (Error.http_status status _) =
    if status == 429 then RetryClass.rate_limited else if leb 500 status then http_5xx else http_4xx
classify_retry _ = http_4xx

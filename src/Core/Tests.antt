-- ===== src/Core/Tests.antt =====
-- The theorems about the breaker, the retry policy and the validation gate at concrete inputs.
use rdapify.Base.{◌≤◌, ◌≡◌, ◌↔◌, refl, true, some, ◌<◌, [], ◌∷◌, arith}
use rdapify.Base.Text.{text}
use rdapify.Base.Result.{Result, ok}
use rdapify.Core.Breaker.{CircuitBreaker, closed, opened, half_open, with_config, before_call}
use rdapify.Core.Breaker.Calls.{asks, succeeds, fails, run, admitted}
use rdapify.Core.Breaker.Failures.{run-with_config_closed_iff}
use rdapify.Core.Breaker.Probe.{cooldown_holds}
use rdapify.Core.Validation.{
  ValidationError, Value, array, object, string, nil, cons, end, field, default_limits,
  validate_json_structure, validate_rdap_response,
}
use rdapify.Core.Validation.Structure.{Fits, validate_json_structure_iff}
use rdapify.Core.Validation.Response.{Passes, validate_rdap_response_iff}

abbrev open_breaker : CircuitBreaker
open_breaker = record {
  state = opened;
  consecutive_failures = 5;
  opened_at_ms = 1000;
  failure_threshold = 5;
  cooldown_ms = 30000;
}

abbrev document : Value
document = object (field (text "links") (array (cons (string (text "l")) nil)) end)

run-with_config_closed_iff_example :
    let b = run (fails 1 ∷ succeeds ∷ fails 2 ∷ asks 3 ∷ []) (with_config 2 10) in
    ((b.state ≡ closed) ↔ (1 < 2)) × (b.state ≡ closed → b.consecutive_failures ≡ 1)
run-with_config_closed_iff_example =
    run-with_config_closed_iff 2 10 (fails 1 ∷ succeeds ∷ fails 2 ∷ asks 3 ∷ []) (omega arith)
      (omega arith)

cooldown_holds_example :
    (admitted (asks 2000 ∷ fails 3000 ∷ asks 30999 ∷ []) open_breaker ≡ 0)
    × (run (asks 2000 ∷ fails 3000 ∷ asks 30999 ∷ []) open_breaker ≡ open_breaker)
    × (before_call 31000 open_breaker ≡ (true, record open_breaker { state = half_open }))
cooldown_holds_example =
    cooldown_holds (asks 2000 ∷ fails 3000 ∷ asks 30999 ∷ []) open_breaker 31000 refl (omega arith)
      (ground arith) (omega arith)

validate_json_structure_iff_example :
    (r : Result ValidationError (Unit {0})) × (validate_json_structure default_limits document
      ≡ some r)
    × ((r ≡ ok tt) ↔ Fits default_limits document 0)
validate_json_structure_iff_example = validate_json_structure_iff default_limits document

validate_rdap_response_iff_example :
    (r : Result ValidationError Value) × (validate_rdap_response
        (λ body. some document)
        default_limits
        (text "{}")
      ≡ some r)
    × ((value : Value)
        → (r ≡ ok value) ↔ (
            (2 ≤ default_limits.max_json_size)
            × (some document ≡ some value)
            × Passes default_limits value))
validate_rdap_response_iff_example =
    validate_rdap_response_iff (λ body. some document) default_limits (text "{}")

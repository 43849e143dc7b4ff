-- ===== src/Batch/Categories.antt =====
-- crates/rdap-batch/src/lib.rs: `classify_error`, next to the classes of crates/rdap-core.
use rdapify.Base.{◌≡◌, ◌↔◌, ◌⊎◌, refl, inl, inr, arith}
use rdapify.Types.Error as Error
use rdapify.Types.Error.{RdapError}
use rdapify.Core.ErrorClass as Core
use rdapify.Core.ErrorClass.{ErrorClass}
use rdapify.Batch.{category_of, retryable, not_found, invalid_input, rate_limited}

-- A transient failure, a refusal by the client's own limiter, a missing object, an input that is wrong.
abbrev pub IsTransient : RdapError → Type 0
IsTransient e =
    (Core.classify_error e ≡ ErrorClass.network) ⊎ (Core.classify_error e ≡ ErrorClass.timeout)

abbrev pub IsThrottled : RdapError → Type 0
IsThrottled (Error.rate_limited host wait) = Unit
IsThrottled _ = ⊥

abbrev pub IsMissing : RdapError → Type 0
IsMissing (Error.http_status status url) = status ≡ 404
IsMissing (Error.no_server_found query) = Unit
IsMissing _ = ⊥

abbrev pub IsWrong : RdapError → Type 0
IsWrong Error.invalid_input = Unit
IsWrong (Error.invalid_url url) = Unit
IsWrong (Error.insecure_scheme scheme) = Unit
IsWrong _ = ⊥

retryable_iff : (e : RdapError) → (category_of e ≡ retryable) ↔ IsTransient e
unfolding category_of Core.classify_error
retryable_iff Error.network = (λ h. inl refl, λ h. refl)
retryable_iff (Error.timeout millis url) = (λ h. inr refl, λ h. refl)
retryable_iff (Error.http_status status url) =
    (λ h. absurd (ground arith), λ h. absurd (ground arith))
retryable_iff _ = (λ h. absurd (ground arith), λ h. absurd (ground arith))

rate_limited_iff : (e : RdapError) → (category_of e ≡ rate_limited) ↔ IsThrottled e
unfolding category_of
rate_limited_iff (Error.rate_limited host wait) = (λ h. tt, λ h. refl)
rate_limited_iff (Error.http_status status url) = (λ h. absurd (ground arith), λ h. absurd h)
rate_limited_iff _ = (λ h. absurd (ground arith), λ h. absurd h)

not_found_iff : (e : RdapError) → (category_of e ≡ not_found) ↔ IsMissing e
unfolding category_of
not_found_iff (Error.no_server_found query) = (λ h. tt, λ h. refl)
not_found_iff (Error.http_status status url) = (λ h. ground arith, λ h. ground arith)
not_found_iff _ = (λ h. absurd (ground arith), λ h. absurd h)

invalid_input_iff : (e : RdapError) → (category_of e ≡ invalid_input) ↔ IsWrong e
unfolding category_of
invalid_input_iff Error.invalid_input = (λ h. tt, λ h. refl)
invalid_input_iff (Error.invalid_url url) = (λ h. tt, λ h. refl)
invalid_input_iff (Error.insecure_scheme scheme) = (λ h. tt, λ h. refl)
invalid_input_iff (Error.http_status status url) = (λ h. absurd (ground arith), λ h. absurd h)
invalid_input_iff _ = (λ h. absurd (ground arith), λ h. absurd h)

-- The categories of a batch: an error may be retried exactly when the engine's metrics class it as a
-- network failure or a timeout; it counts as throttled exactly when the client's own limiter refused,
-- so never for a 429 of a server; as not found exactly for a 404 or a name without a server; and as a
-- wrong input exactly for an invalid input, an invalid URL or an insecure scheme.
pub category_of_iff :
    (e : RdapError)
    → ((category_of e ≡ retryable) ↔ IsTransient e)
      × ((category_of e ≡ rate_limited) ↔ IsThrottled e)
      × ((category_of e ≡ not_found) ↔ IsMissing e)
      × ((category_of e ≡ invalid_input) ↔ IsWrong e)
category_of_iff e = (retryable_iff e, rate_limited_iff e, not_found_iff e, invalid_input_iff e)

-- ===== src/Core/Retry/Consistent.antt =====
-- The three tables over an error (retries, breaker, classes) against one another.
use rdapify.Base.{◌<◌, ◌≤◌, ◌≡◌, ◌≢◌, ◌⊎◌, true, inl, inr, refl, arith}
use rdapify.Types.Error
use rdapify.Types.Error.{RdapError, status_code}
use rdapify.Core.ErrorClass
use rdapify.Core.ErrorClass.{classify_error, classify_retry}
use rdapify.Core.Retry.{retry_limit, is_breaker_failure}

-- An error that is retried is one that the breaker counts, or a rate limit; it is retried at most
-- three times, and is not in the retry class of client errors.
pub retried_counts :
    (e : RdapError)
    → 0 < retry_limit e
    → ((is_breaker_failure e ≡ true) ⊎ (classify_error e ≡ ErrorClass.rate_limited))
      × (retry_limit e ≤ 3)
      × (classify_retry e ≢ ErrorClass.http_4xx)
unfolding retry_limit is_breaker_failure classify_error classify_retry
retried_counts Error.network h = (inl refl, omega arith, λ e. cc)
retried_counts (Error.http_status status url) h = (ground arith, ground arith, λ e. ground arith)
retried_counts (Error.timeout millis url) h = (inl refl, omega arith, λ e. cc)
retried_counts _ h = absurd (omega arith)

-- What the breaker counts is reported as a server error, or is a timeout.
pub breaker_failure_status :
    (e : RdapError)
    → is_breaker_failure e ≡ true
    → (500 ≤ status_code e) ⊎ (classify_error e ≡ ErrorClass.timeout)
unfolding is_breaker_failure classify_error status_code
breaker_failure_status Error.network h = inl (omega arith)
breaker_failure_status (Error.http_status status url) h = inl (ground arith)
breaker_failure_status (Error.timeout millis url) h = inr refl
breaker_failure_status _ h = cc

pub retry_limit-le : (e : RdapError) → retry_limit e ≤ 3
unfolding retry_limit
retry_limit-le Error.network = omega arith
retry_limit-le (Error.http_status status url) = ground arith
retry_limit-le _ = omega arith

-- ===== src/Core/Fetcher/Config/Bounds.antt =====
-- crates/rdap-core/src/fetcher.rs: the bounds of `FetcherConfig::validate`.
use rdapify.Base.{ℕ, ◌^◌, ◌≤◌, ◌<◌, ◌≡◌, ◌↔◌, Bool, true, false, Option, none, some, arith, refl}
use rdapify.Base.Text.{Text}
use rdapify.Base.Result.{Result, ok, ◌>>=◌, reject}
use rdapify.Types.Error.{RdapError, invalid_input}
use rdapify.Core.Fetcher.Config.{
  F32, not_finite, plus, minus, FetcherConfig, max_timeout, max_attempts_ceiling,
  max_concurrency_limit, rate_out_of_range, check_per_host, validate, default_config,
}

abbrev pub InUnit : F32 → Type 0
InUnit not_finite = ⊥
InUnit (minus n) = n ≡ 0
InUnit (plus n) = n ≤ 2 ^ 149

abbrev pub PerHostFits : Option ℕ → ℕ → Type 0
PerHostFits none limit = Unit
PerHostFits (some n) limit = (0 < n) × (n ≤ limit)

pub record IsSafe (c : FetcherConfig) : Type 0 where
  pub timeout : (0 < c.timeout) × (c.timeout ≤ max_timeout)
  pub attempts : (0 < c.max_attempts) × (c.max_attempts ≤ max_attempts_ceiling)
  pub concurrency : (0 < c.concurrency_limit) × (c.concurrency_limit ≤ max_concurrency_limit)
  pub backoff : c.initial_backoff ≤ c.max_backoff
  pub slow : 0 < c.slow_request_threshold
  pub rate : InUnit c.trace_sample_rate
  pub connections : 0 < c.max_connections_per_host
  pub per_host : PerHostFits c.per_host_concurrency_limit c.concurrency_limit

rate_iff : (r : F32) → (rate_out_of_range r ≡ false) ↔ InUnit r
unfolding rate_out_of_range
rate_iff not_finite = (λ h. cc, λ h. absurd h)
rate_iff (minus n) = (λ h. ground arith, λ h. ground arith)
rate_iff (plus n) = (λ h. ground arith, λ h. ground arith)

check_per_host_iff :
    (o : Option ℕ) (limit : ℕ) → (check_per_host o limit ≡ ok tt) ↔ PerHostFits o limit
unfolding check_per_host
check_per_host_iff none limit = (λ h. tt, λ h. refl)
check_per_host_iff (some n) limit = (λ h. ground arith, λ h. ground arith)

reject_iff :
    (b : Bool) (rest : Result RdapError (Unit {0}))
    → ((reject b invalid_input >>= λ _. rest) ≡ ok tt) ↔ ((b ≡ false) × (rest ≡ ok tt))
reject_iff true rest = (λ h. cc, λ h. cc (h.0))
reject_iff false rest = (λ h. (refl, h), λ h. h.1)

pub validate-IsSafe_iff : (c : FetcherConfig) → (validate c ≡ ok tt) ↔ IsSafe c
unfolding validate
validate-IsSafe_iff c =
    let (per_host, fits) = check_per_host_iff c.per_host_concurrency_limit c.concurrency_limit in
    (
      λ h. record {
        timeout = ground arith;
        attempts = ground arith;
        concurrency = ground arith;
        backoff = ground arith;
        slow = ground arith;
        rate = (rate_iff c.trace_sample_rate).0 (ground arith);
        connections = ground arith;
        per_host = per_host (ground arith);
      },
      λ h. ground (arith, (rate_iff c.trace_sample_rate).1 h.rate, fits h.per_host),
    )

-- The defaults pass.
pub default_config-IsSafe : (user_agent : Text) → IsSafe (default_config user_agent)
unfolding default_config
default_config-IsSafe user_agent = omega arith

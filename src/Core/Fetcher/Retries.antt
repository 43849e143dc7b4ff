-- ===== src/Core/Fetcher/Retries.antt =====
-- crates/rdap-core/src/fetcher.rs: the loop of `fetch_with_retry`.
pub mod Sound
pub mod Round
pub mod Rounds
pub mod Budget
pub mod Requests
pub mod Permits
use rdapify.Base.{ℕ, zero, suc, ◌+◌, ◌-◌, Bool, Option, leb, if◌then◌else◌}
use rdapify.Base.Text.{Text}
use rdapify.Base.Result.{Result, ok, err}
use rdapify.Types.Error.{RdapError, parse_error}
use rdapify.Core.Breaker.{Origin}
use rdapify.Core.Retry.{retry_limit, backoff, retry_delay}
use rdapify.Core.Validation.{Value}
use rdapify.Core.Fetcher.Attempt.{
  World, Fetcher, State, AttemptResult, received, refused, closed, slept, act, attempt_once,
}

abbrev pub Fetched : Type 0
Fetched = Result RdapError (Value × Option ℕ)

abbrev pub Outcome : Type 0
Outcome = Fetched × State

-- The next round, with the server's hint, or the end of the loop.
abbrev pub OnRetry : Type 0
OnRetry = RdapError → Option ℕ → State → Outcome

unfoldable pub settle : OnRetry → ℕ → AttemptResult → State → Outcome
settle on_retry attempt (received value cache_hint) s = (ok (value, cache_hint), s)
settle on_retry attempt (refused error retry_after) s =
    if leb attempt (retry_limit error) then on_retry error retry_after s else (err error, s)
settle on_retry attempt closed s = (err parse_error, s)

module _ (w : World) (f : Fetcher) where
  -- Sleep, with no permit held.
  unfoldable pub pause : ℕ → Option ℕ → State → State
  pause attempt retry_after s =
      let backoff_delay =
        backoff (w.gen_range s.log) attempt f.config.initial_backoff f.config.max_backoff in
      act (slept (retry_delay retry_after backoff_delay)) s

  abbrev pub round : OnRetry → ℕ → AttemptResult × State → Outcome
  round on_retry attempt (r, s) = settle on_retry attempt r s

  -- `left` is `max_attempts - attempt`: a retry needs `attempt < max_attempts`.
  unfoldable pub retry : ℕ → ℕ → Text → Origin → State → Outcome
  retry zero attempt url origin s =
      round (λ error retry_after s'. (err error, s')) attempt (attempt_once w f url origin s)
  retry (suc left) attempt url origin s =
      round
        (λ error retry_after s'. retry left (suc attempt) url origin (pause attempt retry_after s'))
        attempt (attempt_once w f url origin s)

  unfoldable pub fetch_with_retry : Text → Origin → State → Outcome
  fetch_with_retry url origin s = retry (f.config.max_attempts - 1) 1 url origin s

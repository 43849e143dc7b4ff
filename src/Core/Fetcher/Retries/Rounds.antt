-- ===== src/Core/Fetcher/Retries/Rounds.antt =====
-- The loop of `fetch_with_retry`, as rounds with sleeps between them.
use rdapify.Base.{ℕ, zero, suc, ◌-◌, ◌≤◌, min, max, ◌≡◌, Option, ◌∷◌, arith, leb, if-both, subst}
use rdapify.Base.Text.{Text}
use rdapify.Types.Error.{RdapError}
use rdapify.Core.Breaker.{Origin}
use rdapify.Core.Retry.{retry_limit, retry_delay, backoff, retry_after_max}
use rdapify.Core.Retry.Consistent.{retry_limit-le}
use rdapify.Core.Retry.Delays.{Draws, backoff-le, retry_delay_bounds}
use rdapify.Core.Fetcher.Attempt.{
  World, Fetcher, State, AttemptResult, received, refused, closed, Log, slept, attempt_once,
}
use rdapify.Core.Fetcher.Retries.{OnRetry, Outcome, settle, pause, retry, fetch_with_retry}
use rdapify.Core.Fetcher.Retries.Round.{Round, attempt_once-Round}

-- One round and at most `n` more, each after a sleep of at most `limit`.
pub data Rounds (limit : ℕ) : ℕ → Log → Log → Type 0 where
  last : {n : ℕ} {log log' : Log} → Round log log' → Rounds limit n log log'
  again :
      {n d : ℕ} {log log' log'' : Log}
      → Round log log'
      → d ≤ limit
      → Rounds limit n (slept d ∷ log') log''
      → Rounds limit (suc n) log log''

-- The longest sleep of a fetcher.
abbrev pub longest_sleep : Fetcher → ℕ
longest_sleep f = max retry_after_max f.config.max_backoff

module _ (w : World) (f : Fetcher) (draws : (log : Log) → Draws (w.gen_range log)) where
  delay : ℕ → Option ℕ → Log → ℕ
  delay attempt retry_after log =
      retry_delay retry_after
        (backoff (w.gen_range log) attempt f.config.initial_backoff f.config.max_backoff)

  delay-le :
      (attempt : ℕ) (retry_after : Option ℕ) (log : Log)
      → delay attempt retry_after log ≤ longest_sleep f
  unfolding delay
  delay-le attempt retry_after log =
      let b = backoff (w.gen_range log) attempt f.config.initial_backoff f.config.max_backoff in
      omega (
        arith,
        (retry_delay_bounds retry_after b).1,
        (backoff-le (w.gen_range log) attempt f.config.initial_backoff f.config.max_backoff
            (draws log)).1,
      )

  -- The rounds that may follow a failed attempt.
  abbrev pub more : ℕ → ℕ → ℕ
  more left attempt = min left (4 - attempt)

  settle-Rounds :
      (on_retry : OnRetry) (n attempt : ℕ) (r : AttemptResult) (s s' : State)
      → Round s.log s'.log
      → ((error : RdapError) (hint : Option ℕ)
          → attempt ≤ 3
          → Rounds (longest_sleep f) n s.log (on_retry error hint s').1.log)
      → Rounds (longest_sleep f) n s.log (settle on_retry attempt r s').1.log
  unfolding settle
  settle-Rounds on_retry n attempt (received value hint) s s' round go = last round
  settle-Rounds on_retry n attempt closed s s' round go = last round
  settle-Rounds on_retry n attempt (refused error hint) s s' round go =
      if-both (λ (o : Outcome). Rounds (longest_sleep f) n s.log o.1.log)
        (leb attempt (retry_limit error)) _ _
        (λ retried. go error hint (ground (arith, retried, retry_limit-le error))) (λ _. last round)

  suc-more :
      (left attempt : ℕ) → attempt ≤ 3 → suc (more left (suc attempt)) ≡ more (suc left) attempt
  suc-more left attempt small = omega (arith, small)

  again-more :
      (left attempt : ℕ) {d : ℕ} {log log' log'' : Log}
      → attempt ≤ 3
      → Round log log'
      → d ≤ longest_sleep f
      → Rounds (longest_sleep f) (more left (suc attempt)) (slept d ∷ log') log''
      → Rounds (longest_sleep f) (more (suc left) attempt) log log''
  again-more left attempt {log = log} {log'' = log''} small round short rest =
      subst (λ n. Rounds (longest_sleep f) n log log'') (suc-more left attempt small)
        (again round short rest)

  retry-Rounds :
      (left attempt : ℕ) (url : Text) (origin : Origin) (s : State)
      → Rounds
          (longest_sleep f)
          (more left attempt)
          s.log
          (retry w f left attempt url origin s).1.log
  unfolding retry pause delay
  retry-Rounds zero attempt url origin s =
      let (r, s') = attempt_once w f url origin s in
      settle-Rounds _ (more zero attempt) attempt r s s' (attempt_once-Round w f url origin s)
        (λ error hint small. last (attempt_once-Round w f url origin s))
  retry-Rounds (suc left) attempt url origin s =
      let (r, s') = attempt_once w f url origin s in
      settle-Rounds _ (more (suc left) attempt) attempt r s s' (attempt_once-Round w f url origin s)
        (λ error hint small.
          again-more left attempt small (attempt_once-Round w f url origin s)
            (delay-le attempt hint s'.log)
            (retry-Rounds left (suc attempt) url origin (pause w f attempt hint s')))

  pub fetch_with_retry-Rounds :
      (url : Text) (origin : Origin) (s : State)
      → Rounds
          (longest_sleep f)
          (min (f.config.max_attempts - 1) 3)
          s.log
          (fetch_with_retry w f url origin s).1.log
  unfolding fetch_with_retry
  fetch_with_retry-Rounds url origin s = retry-Rounds (f.config.max_attempts - 1) 1 url origin s

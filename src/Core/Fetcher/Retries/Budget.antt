-- ===== src/Core/Fetcher/Retries/Budget.antt =====
-- How often the loop of `fetch_with_retry` tries, and how long it waits.
use rdapify.Base.{ℕ, suc, ◌+◌, ◌-◌, ◌*◌, ◌≤◌, min, [], ◌∷◌, arith}
use rdapify.Base.Text.{Text}
use rdapify.Core.Breaker.{Origin}
use rdapify.Core.Retry.Delays.{Draws}
use rdapify.Core.Fetcher.Attempt.{World, Fetcher, State, Log, acquired, released, attempted, slept}
use rdapify.Core.Fetcher.Retries.{fetch_with_retry}
use rdapify.Core.Fetcher.Retries.Round.{Round, gated_round, free_round, given_back, untouched}
use rdapify.Core.Fetcher.Retries.Rounds.{
  Rounds, last, again, longest_sleep, fetch_with_retry-Rounds,
}

abbrev pub attempts : Log → ℕ
attempts [] = 0
attempts (attempted ∷ log) = suc (attempts log)
attempts (acquired p ∷ log) = attempts log
attempts (released p ∷ log) = attempts log
attempts (slept n ∷ log) = attempts log

-- The time that a log spends asleep.
abbrev pub asleep : Log → ℕ
asleep [] = 0
asleep (slept n ∷ log) = n + asleep log
asleep (attempted ∷ log) = asleep log
asleep (acquired p ∷ log) = asleep log
asleep (released p ∷ log) = asleep log

-- What a call of `n` rounds more may add to a log.
abbrev Within : ℕ → ℕ → Log → Log → Type 0
Within limit n log log' =
    (attempts log' ≤ suc n + attempts log) × (asleep log' ≤ n * limit + asleep log)

Round-Within : (limit : ℕ) {log log' : Log} → Round log log' → Within limit 0 log log'
Round-Within limit gated_round = omega arith
Round-Within limit free_round = omega arith
Round-Within limit given_back = omega arith
Round-Within limit untouched = omega arith

Rounds-Within : {limit n : ℕ} {log log' : Log} → Rounds limit n log log' → Within limit n log log'
Rounds-Within {limit} {n} (last r) = omega (arith, Round-Within limit r)
Rounds-Within {limit} (again r short rest) = omega (arith, Round-Within limit r, Rounds-Within rest)

module _ (w : World) (f : Fetcher) (draws : (log : Log) → Draws (w.gen_range log)) where
  -- If draws keep to their range, the loop tries at most four times and at most `max_attempts` times
  -- (once where that is 0), and all its sleeps together are at most the longer of a minute and
  -- `max_backoff` for each of the tries after the first that this allows.
  pub fetch_with_retry-Within :
      (url : Text) (origin : Origin) (s : State)
      → let s' = (fetch_with_retry w f url origin s).1 in
        let retries = min (f.config.max_attempts - 1) 3 in
        (attempts s'.log ≤ suc retries + attempts s.log)
        × (asleep s'.log ≤ retries * longest_sleep f + asleep s.log)
  fetch_with_retry-Within url origin s =
      Rounds-Within (fetch_with_retry-Rounds w f draws url origin s)

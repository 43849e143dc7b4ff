-- ===== src/Core/Fetcher/Retries/Permits.antt =====
-- The order in which the loop of `fetch_with_retry` takes and drops permits.
use rdapify.Base.{ℕ, ◌+◌, ◌-◌, ◌≡◌, [], ◌∷◌, arith}
use rdapify.Base.Text.{Text}
use rdapify.Core.Breaker.{Origin}
use rdapify.Core.Retry.Delays.{Draws}
use rdapify.Core.Fetcher.Attempt.{
  World, Fetcher, State, Log, Permit, per_host, global, Action, acquired, released, attempted,
  slept,
}
use rdapify.Core.Fetcher.Retries.{fetch_with_retry}
use rdapify.Core.Fetcher.Retries.Round.{Round, gated_round, free_round, given_back, untouched}
use rdapify.Core.Fetcher.Retries.Rounds.{Rounds, last, again, fetch_with_retry-Rounds}

-- One for a permit of the kind asked for, none for the other kind.
abbrev one_of : Permit → Permit → ℕ
one_of per_host per_host = 1
one_of per_host global = 0
one_of global per_host = 0
one_of global global = 1

-- How many permits of a kind the call holds.
abbrev pub held : Permit → Log → ℕ
held p [] = 0
held p (acquired q ∷ log) = one_of p q + held p log
held p (released q ∷ log) = held p log - one_of p q
held p (attempted ∷ log) = held p log
held p (slept n ∷ log) = held p log

abbrev pub Idle : Log → Type 0
Idle log = (held per_host log ≡ 0) × (held global log ≡ 0)

-- When an action is in order after a log. The per-host permit is taken before the global one, and
-- both are given back before a sleep.
abbrev Fits : Action → Log → Type 0
Fits (acquired per_host) log = Idle log
Fits (acquired global) log = held global log ≡ 0
Fits attempted log = held global log ≡ 1
Fits (released global) log = held global log ≡ 1
Fits (released per_host) log = (held per_host log ≡ 1) × (held global log ≡ 0)
Fits (slept n) log = Idle log

abbrev pub Orderly : Log → Type 0
Orderly [] = Unit
Orderly (action ∷ log) = Fits action log × Orderly log

Round-Orderly :
    {log log' : Log} → Round log log' → Idle log → Orderly log → Orderly log' × Idle log'
Round-Orderly gated_round idle orderly = ground arith
Round-Orderly free_round idle orderly = ground arith
Round-Orderly given_back idle orderly = ground arith
Round-Orderly untouched idle orderly = (orderly, idle)

Rounds-Orderly :
    {limit n : ℕ} {log log' : Log}
    → Rounds limit n log log'
    → Idle log
    → Orderly log
    → Orderly log' × Idle log'
Rounds-Orderly (last r) idle orderly = Round-Orderly r idle orderly
Rounds-Orderly (again r short rest) idle orderly =
    let h = Round-Orderly r idle orderly in Rounds-Orderly rest h.1 (h.1, h.0)

module _ (w : World) (f : Fetcher) (draws : (log : Log) → Draws (w.gen_range log)) where
  -- If draws keep to their range, a call that starts with no permit takes the per-host permit before
  -- the global one, tries only with the global one in hand, gives every permit back once, sleeps with
  -- none, and ends with none.
  pub fetch_with_retry-Orderly :
      (url : Text) (origin : Origin) (s : State)
      → Idle s.log
      → Orderly s.log
      → Orderly (fetch_with_retry w f url origin s).1.log
        × Idle (fetch_with_retry w f url origin s).1.log
  fetch_with_retry-Orderly url origin s =
      Rounds-Orderly (fetch_with_retry-Rounds w f draws url origin s)

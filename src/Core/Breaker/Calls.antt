-- ===== src/Core/Breaker/Calls.antt =====
-- The operations of a breaker as the tasks that share it make them: any sequence, in any order.
use rdapify.Base.{ℕ, suc, Bool, true, false, List, [], ◌∷◌}
use rdapify.Core.Breaker.{CircuitBreaker, before_call, on_success, on_failure}

-- A time stands with each operation that reads the clock.
pub data Call : Type 0 where
  asks : ℕ → Call
  succeeds : Call
  fails : ℕ → Call

unfoldable pub step : Call → CircuitBreaker → CircuitBreaker
step (asks now) b = (before_call now b).1
step succeeds b = on_success b
step (fails now) b = on_failure now b

unfoldable pub run : List Call → CircuitBreaker → CircuitBreaker
run [] b = b
run (c ∷ cs) b = run cs (step c b)

abbrev pub admits : Call → CircuitBreaker → Bool
admits (asks now) b = (before_call now b).0
admits succeeds b = false
admits (fails now) b = false

abbrev pub count_if : Bool → ℕ → ℕ
count_if true n = suc n
count_if false n = n

-- How many requests the breaker lets through.
unfoldable pub admitted : List Call → CircuitBreaker → ℕ
admitted [] b = 0
admitted (c ∷ cs) b = count_if (admits c b) (admitted cs (step c b))

abbrev pub is_failure : Call → Bool
is_failure (fails now) = true
is_failure _ = false

abbrev pub failures : List Call → ℕ
failures [] = 0
failures (c ∷ cs) = count_if (is_failure c) (failures cs)

-- No call of the sequence reports a success.
abbrev pub NoSuccess : List Call → Type 0
NoSuccess [] = Unit
NoSuccess (asks now ∷ cs) = NoSuccess cs
NoSuccess (fails now ∷ cs) = NoSuccess cs
NoSuccess (succeeds ∷ cs) = ⊥

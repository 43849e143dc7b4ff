-- ===== src/Core/Breaker/Probe.antt =====
-- Who gets through a breaker that is not closed.
use rdapify.Base.{ℕ, ◌+◌, ◌≤◌, ◌<◌, ◌≡◌, ◌≢◌, true, false, List, [], ◌∷◌, arith}
use rdapify.Core.Breaker.{
  CircuitBreaker, CircuitState, closed, opened, half_open, before_call, on_failure,
}
use rdapify.Core.Breaker.Calls.{
  Call, asks, succeeds, fails, step, run, admitted, admits, count_if, is_failure, failures,
  NoSuccess,
}

-- One request may pass when an open breaker has cooled down, none while a probe is out.
abbrev pub budget : CircuitState → ℕ
budget closed = 0
budget opened = 1
budget half_open = 0

step-budget :
    (c : Call) (b : CircuitBreaker)
    → b.state ≢ closed
    → NoSuccess (c ∷ [])
    → (count_if (admits c b) (budget (step c b).state) ≤ count_if (is_failure c) (budget b.state))
      × ((step c b).state ≢ closed)
unfolding step before_call on_failure
step-budget (asks now) b s n = ground arith
step-budget succeeds b s n = absurd n
step-budget (fails now) b s n = ground arith

-- While nobody reports a success, each request that passes a breaker that is not closed answers to a
-- failure before it; the first may also answer to the breaker's having been open at the start.
pub admitted-le-failures :
    (cs : List Call) (b : CircuitBreaker)
    → b.state ≢ closed
    → NoSuccess cs
    → admitted cs b ≤ failures cs + budget b.state
unfolding admitted
admitted-le-failures [] b h n = omega arith
admitted-le-failures (asks now ∷ cs) b h n =
    ground (arith, step-budget (asks now) b h tt, admitted-le-failures cs (step (asks now) b))
admitted-le-failures (fails now ∷ cs) b h n =
    ground (arith, step-budget (fails now) b h tt, admitted-le-failures cs (step (fails now) b))
admitted-le-failures (succeeds ∷ cs) b h n = absurd n

abbrev pub Before : ℕ → List Call → Type 0
Before limit [] = Unit
Before limit (asks now ∷ cs) = (now < limit) × Before limit cs
Before limit (fails now ∷ cs) = Before limit cs
Before limit (succeeds ∷ cs) = ⊥

cooling_step :
    (now : ℕ) (b : CircuitBreaker)
    → b.state ≡ opened
    → 0 < b.cooldown_ms
    → now < b.opened_at_ms + b.cooldown_ms
    → before_call now b ≡ (false, b)
unfolding before_call
cooling_step now b o p h = ground arith

-- Until a cooldown that is not zero has passed, an open breaker lets nothing through and does not change, however
-- often it is asked and whatever else fails; the first request after that passes as the probe.
pub cooldown_holds :
    (cs : List Call) (b : CircuitBreaker) (later : ℕ)
    → b.state ≡ opened
    → 0 < b.cooldown_ms
    → Before (b.opened_at_ms + b.cooldown_ms) cs
    → b.opened_at_ms + b.cooldown_ms ≤ later
    → (admitted cs b ≡ 0)
      × (run cs b ≡ b)
      × (before_call later b ≡ (true, record b { state = half_open }))
unfolding admitted run step
cooldown_holds [] b later o p h l = unfold before_call in ground arith
cooldown_holds (asks now ∷ cs) b later o p h l =
    let same = cooling_step now b o p h.0 in
    ground (arith, same, cooldown_holds cs b later o p h.1 l)
cooldown_holds (fails now ∷ cs) b later o p h l =
    let same : on_failure now b ≡ b = unfold on_failure in ground arith in
    rw (admitted, run, step, same) (cooldown_holds cs b later o p h l)
cooldown_holds (succeeds ∷ cs) b later o p h l = absurd h

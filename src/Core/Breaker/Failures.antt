-- ===== src/Core/Breaker/Failures.antt =====
-- When a breaker opens, and what its counter means.
use rdapify.Base.{
  ℕ, ◌+◌, ◌%◌, ◌^◌, ◌≤◌, ◌<◌, ◌≡◌, ◌≢◌, ◌↔◌, ◌⊎◌, refl, List, [], ◌∷◌, arith, ltb, length,
  Bool-cases, inl, inr, if◌then◌else◌,
}
use rdapify.Core.Breaker.{
  CircuitState, CircuitBreaker, closed, opened, half_open, with_config, before_call, on_success,
  on_failure,
}
use rdapify.Core.Breaker.Calls.{Call, asks, succeeds, fails, step, run}

-- The failures reported since the last success, after so many before.
abbrev pub since_success : ℕ → List Call → ℕ
since_success n [] = n
since_success n (asks now ∷ cs) = since_success n cs
since_success n (succeeds ∷ cs) = since_success 0 cs
since_success n (fails now ∷ cs) = since_success (n + 1) cs

-- After so many failures since the last success, below the threshold and all counted, or not closed.
record Tracks (t n : ℕ) (b : CircuitBreaker) : Type 0 where
  threshold : b.failure_threshold ≡ t
  counting : b.state ≡ closed → (b.consecutive_failures ≡ n) × (n < t)
  tripped : b.state ≢ closed → t ≤ n

module _ (t : ℕ) (positive : 0 < t) (fits : t < 2 ^ 64) where
  before_call-Tracks :
      (n now : ℕ) (b : CircuitBreaker) → Tracks t n b → Tracks t n (before_call now b).1
  unfolding before_call
  before_call-Tracks n now b v = ground arith

  on_success-Tracks : (n : ℕ) (b : CircuitBreaker) → Tracks t n b → Tracks t 0 (on_success b)
  unfolding on_success
  on_success-Tracks n b v = ground arith

  on_failure-Tracks :
      (n now : ℕ) (b : CircuitBreaker) → Tracks t n b → Tracks t (n + 1) (on_failure now b)
  unfolding on_failure
  on_failure-Tracks n now b v = ground arith

  run-Tracks :
      (n : ℕ) (cs : List Call) (b : CircuitBreaker)
      → Tracks t n b
      → Tracks t (since_success n cs) (run cs b)
  unfolding run step
  run-Tracks n [] b v = v
  run-Tracks n (asks now ∷ cs) b v =
      run-Tracks n cs (before_call now b).1 (before_call-Tracks n now b v)
  run-Tracks n (succeeds ∷ cs) b v = run-Tracks 0 cs (on_success b) (on_success-Tracks n b v)
  run-Tracks n (fails now ∷ cs) b v =
      run-Tracks (n + 1) cs (on_failure now b) (on_failure-Tracks n now b v)

  with_config-Tracks : (c : ℕ) → Tracks t 0 (with_config t c)
  unfolding with_config
  with_config-Tracks c = ground arith

-- After any calls on a new breaker, with a threshold that is positive and fits its counter: the breaker
-- is closed exactly when fewer failures than the threshold were reported since the last success, and
-- then its counter is their number.
pub run-with_config_closed_iff :
    (t c : ℕ) (cs : List Call)
    → 0 < t
    → t < 2 ^ 64
    → let b = run cs (with_config t c) in
      ((b.state ≡ closed) ↔ (since_success 0 cs < t))
      × (b.state ≡ closed → b.consecutive_failures ≡ since_success 0 cs)
run-with_config_closed_iff t c cs positive fits =
    let v =
      run-Tracks t positive fits 0 cs (with_config t c) (with_config-Tracks t positive fits c) in
    let b = run cs (with_config t c) in
    (
      (
        λ h. (v.counting h).1,
        λ few. elim (state-cases b.state) [
          | inl h ↦ h
          | inr apart ↦ absurd (let many = v.tripped apart in omega (arith, few, many))
        ],
      ),
      λ h. (v.counting h).0,
    )
  where
    state-cases : (s : CircuitState) → (s ≡ closed) ⊎ (s ≢ closed)
    state-cases closed = inl refl
    state-cases opened = inr (λ e. cc)
    state-cases half_open = inr (λ e. cc)

abbrev pub all_fail : List ℕ → List Call
all_fail [] = []
all_fail (now ∷ times) = fails now ∷ all_fail times

-- An open breaker takes no note of further failures.
stays_open : (times : List ℕ) (b : CircuitBreaker) → b.state ≡ opened → run (all_fail times) b ≡ b
unfolding run step
stays_open [] b o = refl
stays_open (now ∷ times) b o =
    let same : on_failure now b ≡ b = unfold on_failure in ground arith in
    rw (run, step, same) (stays_open times b o)

trips :
    (now : ℕ) (b : CircuitBreaker)
    → b.state ≡ closed
    → b.failure_threshold ≤ (b.consecutive_failures + 1) % 2 ^ 64
    → (on_failure now b).state ≡ opened
unfolding on_failure
trips now b s h = ground arith

counts :
    (now : ℕ) (b : CircuitBreaker)
    → b.state ≡ closed
    → b.consecutive_failures + 1 < b.failure_threshold
    → b.failure_threshold < 2 ^ 64
    → ((on_failure now b).state ≡ closed)
      × ((on_failure now b).consecutive_failures ≡ b.consecutive_failures + 1)
      × ((on_failure now b).failure_threshold ≡ b.failure_threshold)
unfolding on_failure
counts now b s h f = ground arith

opens_after :
    (times : List ℕ) (b : CircuitBreaker)
    → b.state ≡ closed
    → b.failure_threshold < 2 ^ 64
    → b.consecutive_failures < b.failure_threshold
    → (run (all_fail times) b).state
      ≡ (if ltb (b.consecutive_failures + length times) b.failure_threshold then closed else opened)
unfolding run step
opens_after [] b s f h = ground arith
opens_after (now ∷ times) b s f h =
    elim (Bool-cases (ltb (b.consecutive_failures + 1) b.failure_threshold)) [
      | inl more ↦
          let (s', n, t) = counts now b s (ground arith) f in
          let rest = opens_after times (on_failure now b) s' (omega arith) (ground arith) in
          ground (arith, rest)
      | inr last ↦
          let o = trips now b s (ground arith) in
          ground (arith, stays_open times (on_failure now b) o)
    ]

-- A new breaker is open after a run of failures exactly when the run is as long as the threshold.
pub opens_exactly :
    (t c : ℕ) (times : List ℕ)
    → 0 < t
    → t < 2 ^ 64
    → (run (all_fail times) (with_config t c)).state
      ≡ (if ltb (length times) t then closed else opened)
opens_exactly t c times p f =
    unfold with_config in ground (arith, opens_after times (with_config t c) refl f p)

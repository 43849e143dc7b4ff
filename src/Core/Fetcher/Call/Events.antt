-- ===== src/Core/Fetcher/Call/Events.antt =====
-- What a logical call tells the breaker of its origin.
use rdapify.Base.{
  ℕ, ◌+◌, ◌-◌, ◌%◌, ◌^◌, ◌≤◌, ◌<◌, ◌≡◌, ◌⊎◌, refl, sym, subst, true, false, some, inl, inr, arith,
  leb, Bool-cases, Bool,
}
use rdapify.Base.Text.{Text}
use rdapify.Base.Result.{ok, err}
use rdapify.Types.Error.{RdapError, circuit_open}
use rdapify.Security.Guard
use rdapify.Core.Breaker.{
  Origin, CircuitBreaker, closed, opened, half_open, lookup, before_call, on_success, on_failure,
}
use rdapify.Core.Validation.{Value}
use rdapify.Core.Retry.{is_breaker_failure}
use rdapify.Core.Fetcher.Attempt.{World, Fetcher, State}
use rdapify.Core.Fetcher.Retries.{Fetched, fetch_with_retry}
use rdapify.Core.Fetcher.Call.{origin_of, origin_text, record_result, fetch_with_cache_hint}
use rdapify.Core.Fetcher.Call.Isolation.{breaker_at, asked, Course, fetch_with_cache_hint-Course}

-- A breaker lets a call through: it is closed, or open with its cooldown over.
abbrev pub Admits : ℕ → CircuitBreaker → Type 0
Admits now b = (b.state ≡ closed) ⊎ ((b.state ≡ opened) × (b.cooldown_ms ≤ now - b.opened_at_ms))

abbrev pub Refuses : ℕ → CircuitBreaker → Type 0
Refuses now b =
    (b.state ≡ half_open) ⊎ ((b.state ≡ opened) × (now - b.opened_at_ms < b.cooldown_ms))

-- The breaker after a call that it let through, by what it was before and by the result.
pub data Recorded (now : ℕ) (b : CircuitBreaker) : Fetched → CircuitBreaker → Type 0 where
  succeeded :
      (v : Value × _)
      → Recorded now b (ok v) (record b { state = closed; consecutive_failures = 0 })
  probe_failed :
      (e : RdapError)
      → b.state ≡ opened
      → is_breaker_failure e ≡ true
      → Recorded now b (err e) (record b { state = opened; opened_at_ms = now })
  counted :
      (e : RdapError)
      → b.state ≡ closed
      → is_breaker_failure e ≡ true
      → (b.consecutive_failures + 1) % 2 ^ 64 < b.failure_threshold
      → Recorded now b
          (err e)
          (record b { consecutive_failures = (b.consecutive_failures + 1) % 2 ^ 64 })
  tripped :
      (e : RdapError)
      → b.state ≡ closed
      → is_breaker_failure e ≡ true
      → b.failure_threshold ≤ (b.consecutive_failures + 1) % 2 ^ 64
      → Recorded now b (err e) (record b {
        consecutive_failures = (b.consecutive_failures + 1) % 2 ^ 64;
        opened_at_ms = now;
        state = opened;
      })
  probe_uncounted :
      (e : RdapError)
      → b.state ≡ opened
      → is_breaker_failure e ≡ false
      → Recorded now b (err e) (record b { state = half_open })
  uncounted :
      (e : RdapError) → b.state ≡ closed → is_breaker_failure e ≡ false → Recorded now b (err e) b

admits_closed : (now : ℕ) (b : CircuitBreaker) → b.state ≡ closed → before_call now b ≡ (true, b)
unfolding before_call
admits_closed now b c = rw c refl

admits_cooled :
    (now : ℕ) (b : CircuitBreaker)
    → b.state ≡ opened
    → b.cooldown_ms ≤ now - b.opened_at_ms
    → before_call now b ≡ (true, record b { state = half_open })
unfolding before_call
admits_cooled now b o cool = rw o (ground arith)

refuses : (now : ℕ) (b : CircuitBreaker) → Refuses now b → before_call now b ≡ (false, b)
unfolding before_call
refuses now b (inl h) = rw h refl
refuses now b (inr (o, hot)) = rw o (ground arith)

on_failure_counts :
    (now : ℕ) (b : CircuitBreaker)
    → b.state ≡ closed
    → leb b.failure_threshold ((b.consecutive_failures + 1) % 2 ^ 64) ≡ false
    → on_failure now b ≡ record b { consecutive_failures = (b.consecutive_failures + 1) % 2 ^ 64 }
unfolding on_failure
on_failure_counts now b c few = rw c (rw few refl)

on_failure_trips :
    (now : ℕ) (b : CircuitBreaker)
    → b.state ≡ closed
    → leb b.failure_threshold ((b.consecutive_failures + 1) % 2 ^ 64) ≡ true
    → on_failure now b ≡ record b {
      consecutive_failures = (b.consecutive_failures + 1) % 2 ^ 64;
      opened_at_ms = now;
      state = opened;
    }
unfolding on_failure
on_failure_trips now b c many = rw c (rw many refl)

counted-Recorded :
    (now : ℕ) (b : CircuitBreaker) (e : RdapError)
    → b.state ≡ closed
    → is_breaker_failure e ≡ true
    → Recorded now b (err e) (on_failure now b)
counted-Recorded now b e c fails =
    elim (Bool-cases (leb b.failure_threshold ((b.consecutive_failures + 1) % 2 ^ 64))) [
      | inl many ↦
          subst (Recorded now b (err e)) (sym (on_failure_trips now b c many))
            (Recorded.tripped e c fails (ground arith))
      | inr few ↦
          subst (Recorded now b (err e)) (sym (on_failure_counts now b c few))
            (Recorded.counted e c fails (ground arith))
    ]

closed-Recorded :
    (now : ℕ) (b : CircuitBreaker) (r : Fetched)
    → b.state ≡ closed
    → Recorded now b r (record_result now r b)
unfolding record_result on_success
closed-Recorded now b (ok v) c = Recorded.succeeded v
closed-Recorded now b (err e) c = elim (Bool-cases (is_breaker_failure e)) [
  | inl y ↦ rw y (counted-Recorded now b e c y)
  | inr n ↦ rw n (Recorded.uncounted e c n)
]

probe-Recorded :
    (now : ℕ) (b : CircuitBreaker) (r : Fetched)
    → b.state ≡ opened
    → Recorded now b r (record_result now r (record b { state = half_open }))
unfolding record_result on_success on_failure
probe-Recorded now b (ok v) o = Recorded.succeeded v
probe-Recorded now b (err e) o = elim (Bool-cases (is_breaker_failure e)) [
  | inl y ↦ rw y (Recorded.probe_failed e o y)
  | inr n ↦ rw n (Recorded.probe_uncounted e o n)
]

module _ (w : World) (f : Fetcher) where
  -- A call that the guard lets through to an origin, by the breaker that it finds there. If this is
  -- closed, or open with its cooldown over, the call has the result of the retry loop, and the breaker
  -- then is as that one result makes it: closed with no failures after a success; open from now on after
  -- a counted failure of a probe, or one that reaches the threshold; with one more failure after any
  -- other counted failure; and after an error that does not count it is as the question left it, half
  -- open for a probe. If it is half open, or open before the end of its cooldown, nothing is sent or
  -- tried, the error names the origin, and the breaker is as it was.
  pub fetch_with_cache_hint-Recorded :
      (url : Text) (o : Origin) (s : State)
      → Guard.validate w.net f.ssrf url ≡ ok tt
      → origin_of (w.net.parse url) ≡ some o
      → let b = breaker_at w f o s in
        let (r, s') = fetch_with_cache_hint w f url s in
        (Admits (w.now s.log) b
          → (r ≡ (fetch_with_retry w f url o (asked w f o s)).0)
            × (b' : CircuitBreaker) × (lookup o s'.breakers.entries ≡ some b')
            × Recorded (w.now s'.log) b r b')
        × (Refuses (w.now s.log) b
            → (r ≡ err (circuit_open (origin_text o)))
              × (s'.trace ≡ s.trace)
              × (s'.log ≡ s.log)
              × (lookup o s'.breakers.entries ≡ some b))
  fetch_with_cache_hint-Recorded url o s g h =
      let b = breaker_at w f o s in
      let (r, s') = fetch_with_cache_hint w f url s in
      let course = fetch_with_cache_hint-Course w f url o s g h in
      let at : (answer : Bool × CircuitBreaker)
          → before_call (w.now s.log) b ≡ answer
          → Course w f url o answer (asked w f o s) (fetch_with_cache_hint w f url s) =
        λ answer e.
          subst (λ a. Course w f url o a (asked w f o s) (fetch_with_cache_hint w f url s)) e
            course in
      (
        λ admits. elim admits [
          | inl c ↦
              let (result, kept) = at (true, b) (admits_closed (w.now s.log) b c) in
              (result, record_result (w.now s'.log) r b, kept, closed-Recorded (w.now s'.log) b r c)
          | inr (o', cool) ↦
              let half = record b { state = half_open } in
              let (result, kept) = at (true, half) (admits_cooled (w.now s.log) b o' cool) in
              (
                result,
                record_result (w.now s'.log) r half,
                kept,
                probe-Recorded (w.now s'.log) b r o',
              )
        ],
        λ no'. at (false, b) (refuses (w.now s.log) b no'),
      )

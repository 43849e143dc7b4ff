-- ===== src/Core/Fetcher/Call/Probe.antt =====
-- crates/rdap-core/src/fetcher.rs: a call as the probe of an open breaker, and the calls after it.
use mathlib.Core.Option.{some-injective}
use rdapify.Base.{
  ℕ, ◌≤◌, ◌≡◌, refl, sym, ap, ◌∙◌, subst, true, false, some, List, [], ◌∷◌, ◌-◌, Bool-cases,
  Option-cases, inl, inr, arith,
}
use rdapify.Base.Text.{Text}
use rdapify.Base.Result.{ok, err, Result-cases}
use rdapify.Types.Error.{RdapError, circuit_open}
use rdapify.Security.Guard
use rdapify.Core.Breaker.{Origin, CircuitBreaker, half_open, opened, origin_eq, lookup, before_call}
use rdapify.Core.Breaker.Keys.{origin_eq→eq, get_or_create_held}
use rdapify.Core.Retry.{is_breaker_failure}
use rdapify.Core.Fetcher.Attempt.{World, Fetcher, State, Log}
use rdapify.Core.Fetcher.Call.{
  origin_of, origin_text, record_result, after_guard, fetch_with_cache_hint,
}
use rdapify.Core.Fetcher.Call.Isolation.{
  breaker_at, asked, KeptOrDropped, Course, fetch_with_cache_hint-Course,
  fetch_with_cache_hint_isolated,
}

-- The breaker of `o` is `b`.
abbrev At : Origin → CircuitBreaker → State → Type 0
At o b s = lookup o s.breakers.entries ≡ some b

before_call-half_open :
    (now : ℕ) (b : CircuitBreaker) → b.state ≡ half_open → before_call now b ≡ (false, b)
unfolding before_call
before_call-half_open now b h = rw h refl

before_call-cooled :
    (now : ℕ) (b : CircuitBreaker)
    → b.state ≡ opened
    → b.cooldown_ms ≤ now - b.opened_at_ms
    → before_call now b ≡ (true, record b { state = half_open })
unfolding before_call
before_call-cooled now b h cool = rw h (ground arith)

record_result_uncounted :
    (now : ℕ) (e : RdapError) (b : CircuitBreaker)
    → is_breaker_failure e ≡ false
    → record_result now (err e) b ≡ b
unfolding record_result
record_result_uncounted now e b h = rw h refl

-- The cache of the registry does not drop the breaker of an origin. moka documents so of an entry that
-- is asked for again within the idle time, in a registry below its capacity.
abbrev pub IsHeld : World → Origin → Type 0
IsHeld w o = (log : Log) → w.holds log o ≡ true

module _ (w : World) (f : Fetcher) where
  breaker_at_lem :
      (o : Origin) (b : CircuitBreaker) (s : State) → IsHeld w o → At o b s → breaker_at w f o s ≡ b
  breaker_at_lem o b s held h = get_or_create_held (w.holds s.log) o b s.breakers (held s.log) h

  -- The breaker of an origin that is held is as it was, if the call does not change it.
  still-At :
      (o : Origin) (b : CircuitBreaker) (s s' : State)
      → IsHeld w o
      → KeptOrDropped w f o s s'
      → At o b s
      → At o b s'
  still-At o b s s' held (inl same) at = same ∙ at
  still-At o b s s' held (inr (gone, none_left)) at =
      absurd (let there = held s.log in ground arith)

  -- The calls that a program makes one after another.
  unfoldable pub calls : List Text → State → State
  calls [] s = s
  calls (url ∷ urls) s = calls urls (fetch_with_cache_hint w f url s).1

  refused_probe :
      (url : Text) (o : Origin) (b : CircuitBreaker) (s : State)
      → IsHeld w o
      → At o b s
      → b.state ≡ half_open
      → Guard.validate w.net f.ssrf url ≡ ok tt
      → origin_of (w.net.parse url) ≡ some o
      → ((fetch_with_cache_hint w f url s).0 ≡ err (circuit_open (origin_text o)))
        × At o b (fetch_with_cache_hint w f url s).1
  refused_probe url o b s held at half g h =
      let asks : before_call (w.now s.log) (breaker_at w f o s) ≡ (false, b) =
        ap (before_call (w.now s.log)) (breaker_at_lem o b s held at)
        ∙ before_call-half_open (w.now s.log) b half in
      let (r, trace, log, kept) =
        subst (λ answer. Course w f url o answer (asked w f o s) (fetch_with_cache_hint w f url s))
          asks (fetch_with_cache_hint-Course w f url o s g h) in
      (r, kept)

  -- A half-open breaker stays as it is in every call, of its own origin or another.
  call-At :
      (url : Text) (o : Origin) (b : CircuitBreaker) (s : State)
      → IsHeld w o
      → At o b s
      → b.state ≡ half_open
      → At o b (fetch_with_cache_hint w f url s).1
  unfolding fetch_with_cache_hint after_guard
  call-At url o b s held at half = elim (Result-cases (Guard.validate w.net f.ssrf url)) [
    | inr (e, g) ↦ rw (fetch_with_cache_hint, g) at
    | inl (_, g) ↦ elim (Option-cases (origin_of (w.net.parse url))) [
      | inl none' ↦
          still-At o b s (fetch_with_cache_hint w f url s).1 held
            (fetch_with_cache_hint_isolated w f url o s (λ k h. absurd (cc (h, none')))) at
      | inr (k, h) ↦ elim (Bool-cases (origin_eq k o)) [
        | inl e ↦ (refused_probe url o b s held at half g (h ∙ ap some (origin_eq→eq k o e))).1
        | inr e ↦
            still-At o b s (fetch_with_cache_hint w f url s).1 held
              (fetch_with_cache_hint_isolated w f url o s (λ j hj.
                subst (λ (k : Origin). origin_eq k o ≡ false) (some-injective k j (sym h ∙ hj)) e))
              at
      ]
    ]
  ]

  calls-At :
      (urls : List Text) (o : Origin) (b : CircuitBreaker) (s : State)
      → IsHeld w o
      → At o b s
      → b.state ≡ half_open
      → At o b (calls urls s)
  unfolding calls
  calls-At [] o b s held at half = at
  calls-At (url ∷ urls) o b s held at half =
      calls-At urls o b (fetch_with_cache_hint w f url s).1 held (call-At url o b s held at half)
        half

  after_probe :
      (url : Text) (o : Origin) (b : CircuitBreaker) (s : State) (e : RdapError)
      → IsHeld w o
      → At o b s
      → b.state ≡ opened
      → b.cooldown_ms ≤ w.now s.log - b.opened_at_ms
      → Guard.validate w.net f.ssrf url ≡ ok tt
      → origin_of (w.net.parse url) ≡ some o
      → (fetch_with_cache_hint w f url s).0 ≡ err e
      → is_breaker_failure e ≡ false
      → At o (record b { state = half_open }) (fetch_with_cache_hint w f url s).1
  after_probe url o b s e held at open' cool g h fails uncounted =
      let half = record b { state = half_open } in
      let asks : before_call (w.now s.log) (breaker_at w f o s) ≡ (true, half) =
        ap (before_call (w.now s.log)) (breaker_at_lem o b s held at)
        ∙ before_call-cooled (w.now s.log) b open' cool in
      let (r, kept) =
        subst (λ answer. Course w f url o answer (asked w f o s) (fetch_with_cache_hint w f url s))
          asks (fetch_with_cache_hint-Course w f url o s g h) in
      kept
      ∙ (ap (λ r. some (record_result (w.now (fetch_with_cache_hint w f url s).1.log) r half)) fails
          ∙ ap some (
              record_result_uncounted (w.now (fetch_with_cache_hint w f url s).1.log) e half
                uncounted))

  -- A call that the guard lets through, that finds its origin's breaker open and the cooldown over, and
  -- that ends in an error which the breaker does not count (such as a 404), shuts its origin off for as
  -- long as the registry does not drop the origin's entry: after any further calls, one after another, a
  -- call for its URL is refused because the circuit is open.
  pub uncounted_probe_is_final :
      (url : Text) (o : Origin) (b : CircuitBreaker) (s : State) (e : RdapError)
      → IsHeld w o
      → lookup o s.breakers.entries ≡ some b
      → b.state ≡ opened
      → b.cooldown_ms ≤ w.now s.log - b.opened_at_ms
      → Guard.validate w.net f.ssrf url ≡ ok tt
      → origin_of (w.net.parse url) ≡ some o
      → (fetch_with_cache_hint w f url s).0 ≡ err e
      → is_breaker_failure e ≡ false
      → (urls : List Text)
      → let later = calls urls (fetch_with_cache_hint w f url s).1 in
        (fetch_with_cache_hint w f url later).0 ≡ err (circuit_open (origin_text o))
  uncounted_probe_is_final url o b s e held at open' cool g h fails uncounted urls =
      let half = record b { state = half_open } in
      let now_at = after_probe url o b s e held at open' cool g h fails uncounted in
      (refused_probe url o half _ held (calls-At urls o half _ held now_at refl) refl g h).0

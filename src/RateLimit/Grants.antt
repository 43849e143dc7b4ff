-- ===== src/RateLimit/Grants.antt =====
-- crates/rdap-rate-limit/src/lib.rs: `try_acquire` next to `acquire`.
use rdapify.Base.{ℕ, suc, ◌≡◌, ◌⊎◌, refl, ap, ◌∙◌, inl, inr, Option, none, some}
use rdapify.Base.Text.{Text}
use rdapify.Base.Result.{ok, err}
use rdapify.RateLimit.{
  Governor, RdapRateLimiter, check_global, check_host, wait_for, then_host, acquire, try_acquire,
  after_try, refusal,
}

module _ {Cell : Type 0} (g : Governor Cell) (wakes : ℕ → ℕ → ℕ)
    (others : ℕ → RdapRateLimiter Cell → RdapRateLimiter Cell) where
  abbrev Check : Type 0
  Check = ℕ → RdapRateLimiter Cell → Option ℕ × RdapRateLimiter Cell

  wait_for_passed :
      (check : Check) (fuel now : ℕ) (l l' : RdapRateLimiter Cell)
      → check now l ≡ (none, l')
      → wait_for g wakes others check (suc fuel) now l ≡ some (ok tt, now, l')
  unfolding wait_for
  wait_for_passed check fuel now l l' e =
      let passes : (check now l).0 ≡ none = ap (λ c. c.0) e in
      rw (passes, wait_for) (ap (λ (c : Option ℕ × RdapRateLimiter Cell). some (ok tt, now, c.1)) e)

  wait_for_slept :
      (check : Check) (fuel now wait : ℕ) (l l' : RdapRateLimiter Cell)
      → check now l ≡ (some wait, l')
      → wait_for g wakes others check (suc fuel) now l
        ≡ wait_for g wakes others check fuel (wakes now wait) (others (wakes now wait) l')
  unfolding wait_for
  wait_for_slept check fuel now wait l l' e =
      let refused : (check now l).0 ≡ some wait = ap (λ c. c.0) e in
      rw (refused, wait_for)
        (ap
          (λ (c : Option ℕ × RdapRateLimiter Cell).
            wait_for g wakes others check fuel (wakes now wait) (others (wakes now wait) c.1))
          e)

  granted_at_once :
      (fuel now : ℕ) (host : Text) (l l1 l2 : RdapRateLimiter Cell)
      → check_global g now l ≡ (none, l1)
      → check_host g now host l1 ≡ (none, l2)
      → acquire g wakes others (suc fuel) now host l ≡ some (ok tt, now, l2)
  unfolding acquire
  granted_at_once fuel now host l l1 l2 e e' =
      ap (then_host g wakes others (suc fuel) host)
        (wait_for_passed (λ t b. check_global g t b) fuel now l l1 e)
      ∙ wait_for_passed (λ t b. check_host g t host b) fuel now l1 l2 e'

  host_asleep :
      (now wait : ℕ) (host : Text) (l l1 l2 : RdapRateLimiter Cell)
      → check_global g now l ≡ (none, l1)
      → check_host g now host l1 ≡ (some wait, l2)
      → acquire g wakes others 1 now host l ≡ none
  unfolding acquire wait_for
  host_asleep now wait host l l1 l2 e e' =
      ap (then_host g wakes others 1 host)
        (wait_for_passed (λ t b. check_global g t b) 0 now l l1 e)
      ∙ wait_for_slept (λ t b. check_host g t host b) 0 now wait l1 l2 e'

  global_asleep :
      (now wait : ℕ) (host : Text) (l l1 : RdapRateLimiter Cell)
      → check_global g now l ≡ (some wait, l1)
      → acquire g wakes others 1 now host l ≡ none
  unfolding acquire wait_for
  global_asleep now wait host l l1 e =
      ap (then_host g wakes others 1 host)
        (wait_for_slept (λ t b. check_global g t b) 0 now wait l l1 e)

  tried :
      (now : ℕ) (host : Text) (l l1 : RdapRateLimiter Cell) (c : Option ℕ × RdapRateLimiter Cell)
      → check_global g now l ≡ (none, l1)
      → check_host g now host l1 ≡ c
      → try_acquire g now host l ≡ (refusal g c.0, c.1)
  unfolding try_acquire after_try
  tried now host l l1 c e e' =
      ap (after_try g now host) e
      ∙ ap (λ (c : Option ℕ × RdapRateLimiter Cell). (refusal g c.0, c.1)) e'

  tried_global :
      (now wait : ℕ) (host : Text) (l l1 : RdapRateLimiter Cell)
      → check_global g now l ≡ (some wait, l1)
      → try_acquire g now host l ≡ (err wait, l1)
  unfolding try_acquire after_try
  tried_global now wait host l l1 e = ap (after_try g now host) e

  -- `try_acquire` grants a request exactly when `acquire` would not sleep, whatever the sleeps and the other
  -- tasks: either `try_acquire` grants it, and `acquire` then comes back at the same time, without an error
  -- and with the same budgets left, whatever rounds its loops may make, one at least; or `try_acquire` refuses it, with a
  -- wait, and `acquire` does not come back from the first round of its loops.
  pub try_acquire-acquire :
      (now : ℕ) (host : Text) (l : RdapRateLimiter Cell)
      → ((l' : RdapRateLimiter Cell) × (try_acquire g now host l ≡ (ok tt, l'))
          × ((fuel : ℕ) → acquire g wakes others (suc fuel) now host l ≡ some (ok tt, now, l')))
        ⊎ ((wait : ℕ) × (l' : RdapRateLimiter Cell) × (try_acquire g now host l ≡ (err wait, l'))
            × (acquire g wakes others 1 now host l ≡ none))
  try_acquire-acquire now host l = at (check_global g now l) refl
    where
      Agree : Type 0
      Agree =
          ((l' : RdapRateLimiter Cell) × (try_acquire g now host l ≡ (ok tt, l'))
            × ((fuel : ℕ) → acquire g wakes others (suc fuel) now host l ≡ some (ok tt, now, l')))
          ⊎ ((wait : ℕ) × (l' : RdapRateLimiter Cell) × (try_acquire g now host l ≡ (err wait, l'))
              × (acquire g wakes others 1 now host l ≡ none))

      at_host :
          (l1 : RdapRateLimiter Cell) (c : Option ℕ × RdapRateLimiter Cell)
          → check_global g now l ≡ (none, l1)
          → check_host g now host l1 ≡ c
          → Agree
      at_host l1 (none, l2) e e' = inl (
        l2,
        tried now host l l1 (none, l2) e e',
        λ fuel. granted_at_once fuel now host l l1 l2 e e',
      )
      at_host l1 (some wait, l2) e e' = inr (
        wait,
        l2,
        tried now host l l1 (some wait, l2) e e',
        host_asleep now wait host l l1 l2 e e',
      )

      at : (c : Option ℕ × RdapRateLimiter Cell) → check_global g now l ≡ c → Agree
      at (none, l1) e = at_host l1 (check_host g now host l1) e refl
      at (some wait, l1) e =
          inr (wait, l1, tried_global now wait host l l1 e, global_asleep now wait host l l1 e)

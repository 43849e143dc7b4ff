-- ===== src/RateLimit/Tests.antt =====
-- The theorem about the rate limiter at a concrete input.
use rdapify.Base.{ℕ, suc, ◌+◌, ◌-◌, ◌≡◌, ◌⊎◌, none, some, leb, if◌then◌else◌}
use rdapify.Base.Text.{text}
use rdapify.Base.Result.{ok, err}
use rdapify.RateLimit.{Governor, RdapRateLimiter, default_config, new, acquire, try_acquire}
use rdapify.RateLimit.Grants.{try_acquire-acquire}

-- One request in a hundred milliseconds, next at the time kept.
abbrev pacing : Governor ℕ
pacing = record {
  direct = λ quota. 0;
  check = λ now next. if leb next now then (none, now + 100000000) else (some (next - now), next);
}

try_acquire-acquire_example :
    ((l : RdapRateLimiter ℕ) × (try_acquire pacing 7 (text "a") (new pacing default_config)
        ≡ (ok tt, l))
      × ((fuel : ℕ)
          → acquire pacing
              (λ now wait. now + wait)
              (λ now l. l)
              (suc fuel)
              7
              (text "a")
              (new pacing default_config)
            ≡ some (ok tt, 7, l)))
    ⊎ ((wait : ℕ) × (l : RdapRateLimiter ℕ) × (try_acquire pacing 7
            (text "a")
            (new pacing default_config)
          ≡ (err wait, l))
        × (acquire pacing
              (λ now wait. now + wait)
              (λ now l. l)
              1
              7
              (text "a")
              (new pacing default_config)
            ≡ none))
try_acquire-acquire_example =
    try_acquire-acquire pacing (λ now wait. now + wait) (λ now l. l) 7 (text "a")
      (new pacing default_config)

-- ===== src/Core/Retry/Delays.antt =====
-- How long a retry waits.
use rdapify.Base.{ℕ, zero, suc, ◌≤◌, max, Option, none, some, arith}
use rdapify.Core.Retry.{backoff_upper, backoff, retry_delay, retry_after_max}

-- `rand`'s promise about a draw from 0 to `upper`.
abbrev pub Draws : (ℕ → ℕ) → Type 0
Draws gen_range = (upper : ℕ) → gen_range upper ≤ upper

backoff_upper-le : (attempt initial cap : ℕ) → backoff_upper attempt initial cap ≤ cap
unfolding backoff_upper
backoff_upper-le attempt initial cap = omega arith

-- A backoff stays within the cap and within the jitter range of its attempt.
pub backoff-le :
    (gen_range : ℕ → ℕ) (attempt initial cap : ℕ)
    → Draws gen_range
    → (backoff gen_range attempt initial cap ≤ backoff_upper attempt initial cap)
      × (backoff gen_range attempt initial cap ≤ cap)
unfolding backoff
backoff-le gen_range zero initial cap d = ground (arith)
backoff-le gen_range (suc n) initial cap d =
    ground (arith, d (backoff_upper (suc n) initial cap), backoff_upper-le (suc n) initial cap)

-- The wait before a retry is never shorter than the backoff, never undercuts a server's hint of up
-- to a minute, and never passes both a minute and the backoff.
pub retry_delay_bounds :
    (hint : Option ℕ) (backoff_delay : ℕ)
    → (backoff_delay ≤ retry_delay hint backoff_delay)
      × (retry_delay hint backoff_delay ≤ max retry_after_max backoff_delay)
unfolding retry_delay
retry_delay_bounds none backoff_delay = omega arith
retry_delay_bounds (some server) backoff_delay = omega arith

pub retry_delay_hint :
    (server backoff_delay : ℕ)
    → server ≤ retry_after_max
    → server ≤ retry_delay (some server) backoff_delay
unfolding retry_delay
retry_delay_hint server backoff_delay h = omega arith

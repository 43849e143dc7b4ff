-- ===== src/RateLimit.antt =====
-- crates/rdap-rate-limit/src/lib.rs. The accounting of one budget is that of the `governor` crate, which
-- is an argument. Times are nanoseconds.
pub mod Grants
mod Tests
use rdapify.Base.{ℕ, zero, suc, max, Option, none, some, List, []}
use rdapify.Base.Text.{Text}
use rdapify.Base.Text.Keyed.{get, put}
use rdapify.Base.Result.{Result, ok, err}

-- The settings; rates and bursts are `u32`.
pub record RateLimitConfig : Type 0 where
  pub per_host_rps : ℕ
  pub per_host_burst : ℕ
  pub global_rps : Option ℕ
  pub global_burst : ℕ

abbrev pub default_config : RateLimitConfig
default_config = record {
  per_host_rps = 10;
  per_host_burst = 20;
  global_rps = some 100;
  global_burst = 200;
}

pub record Quota : Type 0 where
  pub rps : ℕ
  pub burst : ℕ

unfoldable pub make_quota : ℕ → ℕ → Quota
make_quota rps burst = record { rps = max rps 1; burst = max burst 1 }

-- `governor`: a new limiter, and `check` at a time: `none` if the request may go, or how long to wait.
pub record Governor (Cell : Type 0) : Type 0 where
  pub direct : Quota → Cell
  pub check : ℕ → Cell → Option ℕ × Cell

-- The error of a refusal, with the wait.
abbrev pub Limited : Type 0
Limited = ℕ

pub record RdapRateLimiter (Cell : Type 0) : Type 0 where
  pub global : Option Cell
  pub per_host : List (Text × Cell)
  pub quota : Quota

module _ {Cell : Type 0} (g : Governor Cell) where
  abbrev global_of : Option ℕ → ℕ → Option Cell
  global_of none burst = none
  global_of (some rps) burst = some (g.direct (make_quota rps burst))

  unfoldable pub new : RateLimitConfig → RdapRateLimiter Cell
  new config = record {
    global = global_of config.global_rps config.global_burst;
    per_host = [];
    quota = make_quota config.per_host_rps config.per_host_burst;
  }

  abbrev found_or : Option Cell → Cell → Cell
  found_or (some cell) fresh = cell
  found_or none fresh = fresh

  -- The limiter of a host, made on its first use.
  unfoldable pub get_or_create : Text → RdapRateLimiter Cell → Cell
  get_or_create host l = found_or (get host l.per_host) (g.direct l.quota)

  abbrev pub with_host : Text → Cell → RdapRateLimiter Cell → RdapRateLimiter Cell
  with_host host cell l = record l { per_host = put host cell l.per_host }

  -- One check of the global budget, if there is one, and one of the budget of a host.
  unfoldable pub check_global : ℕ → RdapRateLimiter Cell → Option ℕ × RdapRateLimiter Cell
  check_global now l = elim l.global [
    | none ↦ (none, l)
    | some cell ↦ ((g.check now cell).0, record l { global = some (g.check now cell).1 })
  ]

  unfoldable pub check_host : ℕ → Text → RdapRateLimiter Cell → Option ℕ × RdapRateLimiter Cell
  check_host now host l =
      let (wait, cell) = g.check now (get_or_create host l) in (wait, with_host host cell l)

  -- What a call comes to: its result, the time, and the budgets. `none` when the fuel of a loop runs out.
  abbrev pub Outcome : Type 0
  Outcome = Option (Result Limited (Unit {0}) × ℕ × RdapRateLimiter Cell)

  module _
      -- When a sleep of so long from now on ends, and what the other tasks have made of the budgets by then.
      (wakes : ℕ → ℕ → ℕ) (others : ℕ → RdapRateLimiter Cell → RdapRateLimiter Cell) where
    -- The loop around a check.
    unfoldable pub wait_for :
        (ℕ → RdapRateLimiter Cell → Option ℕ × RdapRateLimiter Cell)
        → ℕ
        → ℕ
        → RdapRateLimiter Cell
        → Outcome
    wait_for check zero now l = none
    wait_for check (suc fuel) now l = elim (check now l).0 [
      | none ↦ some (ok tt, now, (check now l).1)
      | some wait ↦ wait_for check fuel (wakes now wait) (others (wakes now wait) (check now l).1)
    ]

    abbrev then_host : ℕ → Text → Outcome → Outcome
    then_host fuel host none = none
    then_host fuel host (some (err wait, now, l)) = some (err wait, now, l)
    then_host fuel host (some (ok done, now, l)) =
        wait_for (λ now l. check_host now host l) fuel now l

    -- Each loop with the fuel given.
    unfoldable pub acquire : ℕ → ℕ → Text → RdapRateLimiter Cell → Outcome
    acquire fuel now host l = then_host fuel host (wait_for check_global fuel now l)

  abbrev refusal : Option ℕ → Result Limited (Unit {0})
  refusal none = ok tt
  refusal (some wait) = err wait

  after_try :
      ℕ → Text → Option ℕ × RdapRateLimiter Cell → Result Limited (Unit {0}) × RdapRateLimiter Cell
  after_try now host (none, l) = (refusal (check_host now host l).0, (check_host now host l).1)
  after_try now host (some wait, l) = (err wait, l)

  unfoldable pub try_acquire :
      ℕ → Text → RdapRateLimiter Cell → Result Limited (Unit {0}) × RdapRateLimiter Cell
  unfolding after_try
  try_acquire now host l = after_try now host (check_global now l)

-- ===== src/Core/Retry.antt =====
-- crates/rdap-core/src/fetcher.rs: the retry utilities.
pub mod Delays
pub mod Consistent
use rdapify.Base.{
  ℕ, zero, suc, ◌+◌, ◌-◌, ◌*◌, ◌/◌, ◌%◌, ◌^◌, min, max, Bool, true, false, ◌&&◌, Option, none, some,
  List, [], ◌∷◌, ltb, leb, ◌==◌, if◌then◌else◌,
}
use rdapify.Base.Text.{Text, text}
use rdapify.Base.Text.Parts.{split, trim, strip_prefix}
use rdapify.Base.Text.Number.{parse_unsigned}
use rdapify.Types.Error.{RdapError, network, timeout, http_status}

abbrev pub retry_after_max : ℕ
retry_after_max = 60000

abbrev pub retry_limit_of_status : ℕ → ℕ
retry_limit_of_status status =
    if status == 429
    then 3
    else if status == 500
    then 2
    else if leb 502 status && leb status 504
    then 2
    else 0

-- How many extra attempts an error allows.
unfoldable pub retry_limit : RdapError → ℕ
retry_limit network = 2
retry_limit (timeout _ _) = 1
retry_limit (http_status status _) = retry_limit_of_status status
retry_limit _ = 0

unfoldable pub is_breaker_failure : RdapError → Bool
is_breaker_failure network = true
is_breaker_failure (timeout _ _) = true
is_breaker_failure (http_status status _) = leb 500 status
is_breaker_failure _ = false

abbrev pub u64_max : ℕ
u64_max = 2 ^ 64 - 1

-- The top of the jitter range: initial × 2^(attempt-1), saturating, capped.
unfoldable pub backoff_upper : ℕ → ℕ → ℕ → ℕ
backoff_upper attempt initial cap =
    let exp = min (initial % 2 ^ 64 * min (2 ^ (attempt - 1)) u64_max) u64_max in
    min exp (cap % 2 ^ 64)

-- `gen_range upper` is the draw of `rand` from 0 to `upper`, both included. Times in milliseconds.
unfoldable pub backoff : (ℕ → ℕ) → ℕ → ℕ → ℕ → ℕ
backoff gen_range zero initial cap = 0
backoff gen_range (suc n) initial cap =
    let upper = backoff_upper (suc n) initial cap in if upper == 0 then 0 else gen_range upper

-- The delay before the next attempt: the server's hint, at most a minute, but at least the backoff.
unfoldable pub retry_delay : Option ℕ → ℕ → ℕ
retry_delay none backoff_delay = backoff_delay
retry_delay (some server) backoff_delay = max (min server retry_after_max) backoff_delay

-- `parse_from_rfc2822` is that of `chrono`, and `now` its clock, in Unix milliseconds.
unfoldable pub parse_retry_after : (Text → Option ℕ) → ℕ → Option Text → Option ℕ
parse_retry_after parse_from_rfc2822 now none = none
parse_retry_after parse_from_rfc2822 now (some header) =
    let value = trim header in
    elim (parse_unsigned (2 ^ 64) value) [
      | some secs ↦ some (secs * 1000)
      | none ↦ elim (parse_from_rfc2822 value) [
        | none ↦ none
        | some then_ms ↦ if ltb now then_ms then some ((then_ms - now) / 1000 * 1000) else some 0
      ]
    ]

abbrev max_age_of : Text → Option ℕ
max_age_of part = elim (strip_prefix (text "max-age=") (trim part)) [
  | none ↦ none
  | some age_str ↦ parse_unsigned (2 ^ 64) (trim age_str)
]

pub first_max_age : List Text → Option ℕ
first_max_age [] = none
first_max_age (part ∷ parts) =
    let rest = first_max_age parts in
    elim (max_age_of part) [ some secs ↦ some (secs * 1000) | none ↦ rest ]

-- The first usable `max-age`, in milliseconds.
unfoldable pub parse_cache_control : Option Text → Option ℕ
unfolding first_max_age
parse_cache_control none = none
parse_cache_control (some value) = first_max_age (split 44 value)

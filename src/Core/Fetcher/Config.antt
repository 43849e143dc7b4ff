-- ===== src/Core/Fetcher/Config.antt =====
-- crates/rdap-core/src/fetcher.rs: `FetcherConfig`, its defaults, the environment overlay and the bounds
-- that every constructor checks.
pub mod Bounds
use rdapify.Base.{
  ℕ, zero, suc, ◌+◌, ◌*◌, ◌^◌, Bool, true, false, ◌||◌, Option, none, some, ltb, ◌==◌,
  if◌then◌else◌,
}
use rdapify.Base.Text.{Text, text}
use rdapify.Base.Text.Number.{parse_unsigned}
use rdapify.Base.Result.{Result, ok, err, ◌>>=◌, ◌>>◌, reject}
use rdapify.Types.Error.{RdapError, invalid_input}
use rdapify.Core.Validation.{RdapValidationLimits, default_limits}

-- An `f32`: NaN or an infinity, or the number n / 2^149 or -n / 2^149. Each finite value is of the
-- second kind.
pub data F32 : Type 0 where
  not_finite : F32
  plus minus : ℕ → F32

abbrev pub max_timeout : ℕ
max_timeout = 30000

abbrev pub max_attempts_ceiling : ℕ
max_attempts_ceiling = 10

abbrev pub max_concurrency_limit : ℕ
max_concurrency_limit = 4096

abbrev pub per_host_registry_capacity : ℕ
per_host_registry_capacity = 1024

-- Times in milliseconds.
pub record FetcherConfig : Type 0 where
  pub timeout : ℕ
  pub user_agent : Text
  pub max_attempts : ℕ
  pub initial_backoff : ℕ
  pub max_backoff : ℕ
  pub reuse_connections : Bool
  pub max_connections_per_host : ℕ
  pub validation_limits : RdapValidationLimits
  pub concurrency_limit : ℕ
  pub per_host_concurrency_limit : Option ℕ
  pub slow_request_threshold : ℕ
  pub trace_sample_rate : F32
  pub verbose_trace : Bool

-- `user_agent` holds the package's version.
unfoldable pub default_config : Text → FetcherConfig
default_config user_agent = record {
  timeout = 5000;
  user_agent = user_agent;
  max_attempts = 3;
  initial_backoff = 500;
  max_backoff = 8000;
  reuse_connections = true;
  max_connections_per_host = 10;
  validation_limits = default_limits;
  concurrency_limit = 256;
  per_host_concurrency_limit = some 16;
  slow_request_threshold = 500;
  trace_sample_rate = plus 0;
  verbose_trace = false;
}

-- Not finite, below 0, or above 1.
unfoldable pub rate_out_of_range : F32 → Bool
rate_out_of_range not_finite = true
rate_out_of_range (minus n) = ltb 0 n
rate_out_of_range (plus n) = ltb (2 ^ 149) n

pub check_per_host : Option ℕ → ℕ → Result RdapError (Unit {0})
check_per_host none concurrency_limit = ok tt
check_per_host (some n) concurrency_limit = do
  reject (n == 0) invalid_input
  reject (ltb concurrency_limit n) invalid_input

unfoldable pub validate : FetcherConfig → Result RdapError (Unit {0})
unfolding check_per_host
validate c = do
  reject (c.timeout == 0) invalid_input
  reject (ltb max_timeout c.timeout) invalid_input
  reject (c.max_attempts == 0) invalid_input
  reject (ltb max_attempts_ceiling c.max_attempts) invalid_input
  reject (c.concurrency_limit == 0) invalid_input
  reject (ltb max_concurrency_limit c.concurrency_limit) invalid_input
  reject (ltb c.max_backoff c.initial_backoff) invalid_input
  reject (c.slow_request_threshold == 0) invalid_input
  reject (rate_out_of_range c.trace_sample_rate) invalid_input
  reject (c.max_connections_per_host == 0) invalid_input
  check_per_host c.per_host_concurrency_limit c.concurrency_limit

-- A variable that is unset, or set to what does not parse, leaves the field alone.
abbrev pub override {ℓ} : {A : Type ℓ} → Option A → A → A
override none old = old
override (some new) old = new

abbrev then_parse {ℓ} : {A : Type ℓ} → Option Text → (Text → Option A) → Option A
then_parse none parse = none
then_parse (some s) parse = parse s

-- 0 switches the per-host gate off.
abbrev pub per_host_of : ℕ → Option ℕ
per_host_of n = if n == 0 then none else some n

abbrev option_map {ℓ} : {A B : Type ℓ} → (A → B) → Option A → Option B
option_map f none = none
option_map f (some a) = some (f a)

-- `var` is `std::env::var`, `parse_f32` is `str::parse::<f32>`.
unfoldable pub with_env_overrides :
    (Text → Option Text) → (Text → Option F32) → FetcherConfig → FetcherConfig
with_env_overrides var parse_f32 c = record c {
  timeout =
      override
        (option_map (λ n. n * 1000)
          (then_parse (var (text "RDAP_TIMEOUT_SECS")) (parse_unsigned (2 ^ 64))))
        c.timeout;
  max_attempts =
      override (then_parse (var (text "RDAP_MAX_ATTEMPTS")) (parse_unsigned (2 ^ 32)))
        c.max_attempts;
  concurrency_limit =
      override (then_parse (var (text "RDAP_CONCURRENCY_LIMIT")) (parse_unsigned (2 ^ 64)))
        c.concurrency_limit;
  per_host_concurrency_limit =
      override
        (option_map per_host_of
          (then_parse (var (text "RDAP_PER_HOST_CONCURRENCY")) (parse_unsigned (2 ^ 64))))
        c.per_host_concurrency_limit;
  trace_sample_rate =
      override (then_parse (var (text "RDAP_TRACE_SAMPLE_RATE")) parse_f32) c.trace_sample_rate;
}

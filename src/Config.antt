-- ===== src/Config.antt =====
-- crates/rdap-config/src/config.rs and lib.rs: the settings, their defaults, and the errors.
mod Tests
pub mod Load
pub mod Bounds
use rdapify.Base.{ℕ, ◌*◌, Bool, true, false, Option, none, some, List, [], ◌∷◌, leb, ◌==◌, ◌&&◌}
use rdapify.Base.Text.{Text, text, to_lowercase}
use rdapify.Base.Text.Keyed.{get}

pub data CacheType : Type 0 where
  memory sqlite postgres : CacheType

pub data LogLevel : Type 0 where
  trace debug info warn error : LogLevel

pub data LogFormat : Type 0 where
  json plain : LogFormat

-- `FromStr` of the three.
unfoldable pub parse_cache_type : Text → Option CacheType
parse_cache_type s =
    get (to_lowercase s)
      ((text "memory", memory) ∷ (text "sqlite", sqlite) ∷ (text "postgres", postgres) ∷ [])

unfoldable pub parse_log_level : Text → Option LogLevel
parse_log_level s = get (to_lowercase s) (
    (text "trace", trace)
    ∷ (text "debug", debug)
    ∷ (text "info", info)
    ∷ (text "warn", warn)
    ∷ (text "error", error)
    ∷ [])

unfoldable pub parse_log_format : Text → Option LogFormat
parse_log_format s = get (to_lowercase s) ((text "json", json) ∷ (text "text", plain) ∷ [])

-- An `f64`: NaN, an infinity, or the number n / 2^1074 or -n / 2^1074.
pub data F64 : Type 0 where
  nan infinity minus_infinity : F64
  plus minus : ℕ → F64

-- `a >= b`.
unfoldable pub at_least : F64 → F64 → Bool
at_least nan b = false
at_least infinity nan = false
at_least infinity _ = true
at_least minus_infinity minus_infinity = true
at_least minus_infinity _ = false
at_least (plus m) (plus n) = leb n m
at_least (plus m) (minus n) = true
at_least (plus m) minus_infinity = true
at_least (plus m) _ = false
at_least (minus m) (plus n) = m == 0 && n == 0
at_least (minus m) (minus n) = leb m n
at_least (minus m) minus_infinity = true
at_least (minus m) _ = false

pub record RdapConfig : Type 0 where
  pub timeout_seconds : ℕ
  pub max_response_size_mb : ℕ
  pub user_agent : Text
  pub bootstrap_refresh_hours : ℕ

pub record CacheConfig : Type 0 where
  pub backend : CacheType
  pub ttl_seconds : ℕ
  pub max_entries : ℕ

pub record SqliteConfig : Type 0 where
  pub path : Text

pub record MonitoringConfig : Type 0 where
  pub workers : ℕ
  pub interval_seconds : ℕ
  pub batch_size : ℕ

pub record WebhookConfig : Type 0 where
  pub workers : ℕ
  pub timeout_seconds : ℕ
  pub max_retries : ℕ

pub record LicenseConfig : Type 0 where
  pub path : Text
  pub grace_days : ℕ
  pub revocation_check_hours : ℕ

pub record LoggingConfig : Type 0 where
  pub level : LogLevel
  pub format : LogFormat

pub record MetricsConfig : Type 0 where
  pub enabled : Bool
  pub port : ℕ
  pub slow_request_threshold_ms : ℕ
  pub top_n_origins : ℕ
  pub histogram_buckets : Option (List F64)

pub record ServerConfig : Type 0 where
  pub host : Text
  pub port : ℕ

pub record RdapifyConfig : Type 0 where
  pub rdap : RdapConfig
  pub cache : CacheConfig
  pub sqlite : SqliteConfig
  pub monitoring : MonitoringConfig
  pub webhooks : WebhookConfig
  pub license : LicenseConfig
  pub logging : LoggingConfig
  pub metrics : MetricsConfig
  pub server : ServerConfig

-- `RdapifyConfig::default()`, section by section.
abbrev pub default_config : RdapifyConfig
default_config = record {
  rdap = record {
    timeout_seconds = 5;
    max_response_size_mb = 5;
    user_agent = text "RDAPify/0.x";
    bootstrap_refresh_hours = 24;
  };
  cache = record { backend = memory; ttl_seconds = 3600; max_entries = 100000 };
  sqlite = record { path = text "~/.rdapify/cache.db" };
  monitoring = record { workers = 4; interval_seconds = 300; batch_size = 50 };
  webhooks = record { workers = 2; timeout_seconds = 10; max_retries = 7 };
  license = record {
    path = text "~/.rdapify/activation.rdap";
    grace_days = 7;
    revocation_check_hours = 24;
  };
  logging = record { level = info; format = json };
  metrics = record {
    enabled = true;
    port = 9090;
    slow_request_threshold_ms = 500;
    top_n_origins = 50;
    histogram_buckets = none;
  };
  server = record { host = text "0.0.0.0"; port = 8080 };
}

-- With the path, the field or the variable at fault.
pub data ConfigError : Type 0 where
  file_not_found read_error parse_error validation_error env_error : Text → ConfigError

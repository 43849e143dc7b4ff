-- ===== src/Config/Load.antt =====
-- crates/rdap-config/src: validate.rs, env.rs and loader.rs.
use rdapify.Base.{
  ℕ, ◌^◌, Bool, true, false, ◌||◌, Option, none, some, List, [], ◌∷◌, ltb, ◌==◌, any, if◌then◌else◌,
}
use rdapify.Base.Text.{Text, text}
use rdapify.Base.Text.Parts.{strip_prefix}
use rdapify.Base.Text.Number.{parse_unsigned}
use rdapify.Base.Result.{Result, ok, err, ◌>>=◌, ◌>>◌, reject}
use rdapify.Config.{
  F64, plus, at_least, RdapifyConfig, default_config, ConfigError, file_not_found, read_error,
  parse_error, validation_error, env_error, parse_cache_type, parse_log_level, parse_log_format,
}

abbrev pub Checked : Type 0
Checked = Result ConfigError (Unit {0})

unfoldable pub check_range : Text → ℕ → ℕ → ℕ → Checked
check_range field value min max = reject (ltb value min || ltb max value) (validation_error field)

unfoldable pub check_port : Text → ℕ → Checked
check_port field port = reject (port == 0) (validation_error field)

-- Whether some boundary is at least the next one.
unfoldable pub unordered : List F64 → Bool
unordered [] = false
unordered (a ∷ []) = false
unordered (a ∷ b ∷ rest) = let later = unordered (b ∷ rest) in if at_least a b then true else later

-- `!b.is_finite() || *b <= 0.0`.
abbrev pub out_of_place : F64 → Bool
out_of_place (plus n) = n == 0
out_of_place _ = true

unfoldable pub check_buckets : Option (List F64) → Checked
check_buckets none = ok tt
check_buckets (some []) = err (validation_error (text "metrics.histogram_buckets"))
check_buckets (some (a ∷ rest)) = do
  reject (unordered (a ∷ rest)) (validation_error (text "metrics.histogram_buckets"))
  reject (any out_of_place (a ∷ rest)) (validation_error (text "metrics.histogram_buckets"))

unfoldable pub validate_config : RdapifyConfig → Checked
validate_config c = do
  check_range (text "rdap.timeout_seconds") c.rdap.timeout_seconds 1 30
  check_range (text "rdap.max_response_size_mb") c.rdap.max_response_size_mb 1 20
  check_range (text "cache.ttl_seconds") c.cache.ttl_seconds 60 86400
  check_range (text "monitoring.workers") c.monitoring.workers 1 32
  check_range (text "webhooks.workers") c.webhooks.workers 1 32
  check_range (text "webhooks.timeout_seconds") c.webhooks.timeout_seconds 1 60
  check_range (text "license.grace_days") c.license.grace_days 0 30
  check_port (text "metrics.port") c.metrics.port
  check_port (text "server.port") c.server.port
  check_range (text "metrics.slow_request_threshold_ms") c.metrics.slow_request_threshold_ms 1 60000
  check_range (text "metrics.top_n_origins") c.metrics.top_n_origins 1 1024
  check_buckets c.metrics.histogram_buckets

-- What the loader finds: the environment's variables, the files, and `toml::from_str`.
pub record Host : Type 0 where
  pub var : Text → Option Text
  pub exists : Text → Bool
  pub read_to_string : Text → Option Text
  pub from_str : Text → Option RdapifyConfig
  pub home_dir : Option Text
  pub join : Text → Text → Text

-- One variable: unset, it changes nothing.
abbrev pub overridden :
    {A : Type 0}
    → Text
    → Option Text
    → (Text → Option A)
    → (A → RdapifyConfig → RdapifyConfig)
    → RdapifyConfig
    → Result ConfigError RdapifyConfig
overridden name none parse set c = ok c
overridden name (some value) parse set c = elim (parse value) [
  | some a ↦ ok (set a c)
  | none ↦ err (env_error name)
]

abbrev any_text : Text → Option Text
any_text t = some t

module _ (h : Host) where
  abbrev override :
      {A : Type 0}
      → Text
      → (Text → Option A)
      → (A → RdapifyConfig → RdapifyConfig)
      → RdapifyConfig
      → Result ConfigError RdapifyConfig
  override name parse set c = overridden name (h.var name) parse set c

  unfoldable pub apply_env_overrides : RdapifyConfig → Result ConfigError RdapifyConfig
  apply_env_overrides c0 = do
    c1 ←
        override (text "RDAPIFY_RDAP_TIMEOUT") (parse_unsigned (2 ^ 64))
          (λ n c. record c { rdap = record c.rdap { timeout_seconds = n } }) c0
    c2 ←
        override (text "RDAPIFY_CACHE_TYPE") parse_cache_type
          (λ t c. record c { cache = record c.cache { backend = t } }) c1
    c3 ←
        override (text "RDAPIFY_SQLITE_PATH") any_text
          (λ t c. record c { sqlite = record { path = t } }) c2
    c4 ←
        override (text "RDAPIFY_LICENSE_PATH") any_text
          (λ t c. record c { license = record c.license { path = t } }) c3
    c5 ←
        override (text "RDAPIFY_LOG_LEVEL") parse_log_level
          (λ l c. record c { logging = record c.logging { level = l } }) c4
    c6 ←
        override (text "RDAPIFY_LOG_FORMAT") parse_log_format
          (λ f c. record c { logging = record c.logging { format = f } }) c5
    c7 ←
        override (text "RDAPIFY_METRICS_PORT") (parse_unsigned (2 ^ 16))
          (λ n c. record c { metrics = record c.metrics { port = n } }) c6
    override (text "RDAPIFY_SERVER_PORT") (parse_unsigned (2 ^ 16))
        (λ n c. record c { server = record c.server { port = n } }) c7

  -- A path that was named must exist.
  named_path : Text → Result ConfigError (Option Text)
  named_path path = if h.exists path then ok (some path) else err (file_not_found path)

  in_system : Result ConfigError (Option Text)
  in_system =
      if h.exists (text "/etc/rdapify/rdapify.toml")
      then ok (some (text "/etc/rdapify/rdapify.toml"))
      else ok none

  in_home : Option Text → Result ConfigError (Option Text)
  unfolding in_system
  in_home none = in_system
  in_home (some home) =
      let path = h.join (h.join home (text ".rdapify")) (text "rdapify.toml") in
      if h.exists path then ok (some path) else in_system

  by_variable : Option Text → Result ConfigError (Option Text)
  unfolding named_path in_home
  by_variable (some path) = named_path path
  by_variable none =
      if h.exists (text "rdapify.toml") then ok (some (text "rdapify.toml")) else in_home h.home_dir

  unfoldable pub resolve_config_path : Option Text → Result ConfigError (Option Text)
  unfolding named_path by_variable
  resolve_config_path (some path) = named_path path
  resolve_config_path none = by_variable (h.var (text "RDAPIFY_CONFIG"))

  parsed_file : Text → Option Text → Result ConfigError RdapifyConfig
  parsed_file path none = err (read_error path)
  parsed_file path (some contents) = elim (h.from_str contents) [
    | some c ↦ ok c
    | none ↦ err (parse_error path)
  ]

  read_config : Option Text → Result ConfigError RdapifyConfig
  unfolding parsed_file
  read_config none = ok default_config
  read_config (some path) = parsed_file path (h.read_to_string path)

  -- The file or the defaults, with the overrides.
  unfoldable pub overlaid_config : Option Text → Result ConfigError RdapifyConfig
  unfolding read_config
  overlaid_config path = do
    found ← resolve_config_path path
    base ← read_config found
    apply_env_overrides base

  unfoldable pub load_config : Option Text → Result ConfigError RdapifyConfig
  load_config path = do config ← overlaid_config path; validate_config config; ok config

  unfoldable pub expand_tilde : Text → Text
  expand_tilde path = elim (strip_prefix (text "~/") path) [
    | none ↦ path
    | some rest ↦ elim h.home_dir [ some home ↦ h.join home rest | none ↦ path ]
  ]

-- ===== src/Client.antt =====
-- crates/rdapify-client/src/lib.rs, with the features `memory-cache` and `stream`: the client, and what
-- it runs in. Metrics and tracing are left out.
mod Tests
pub mod Sample
pub mod Lookup
pub mod Queries
pub mod Session
pub mod Streams
pub mod Availability
pub mod Diagnostics
use rdapify.Base.{
  ℕ, zero, suc, ◌+◌, ◌*◌, ◌^◌, Bool, true, false, ◌&&◌, not, Option, none, some, List, [], ◌∷◌,
  ◌++◌, ltb, ◌==◌, if◌then◌else◌,
}
use rdapify.Base.Text.{Text, text, to_lowercase, is_empty}
use rdapify.Base.Text.Parts.{trim, trim_end_matches}
use rdapify.Base.Result.{Result, ok, err, ◌>>=◌}
use rdapify.Net.{IpAddr}
use rdapify.Types.Error.{RdapError, invalid_input}
use rdapify.Security.Guard.{SsrfGuard, SsrfConfig}
use rdapify.Bootstrap.Data.{BootstrapFile, IpNetwork}
use rdapify.Bootstrap.Resolver as Resolver
use rdapify.Bootstrap.Resolver.{Bootstrap, Outside}
use rdapify.Cache.{MemoryCache, Keeps, seconds}
use rdapify.Cache as Cache
use rdapify.Core.Fetcher.Config.{FetcherConfig}
use rdapify.Core.Fetcher.Attempt as Attempt
use rdapify.Core.Fetcher.Call.{with_full_dependencies}
use rdapify.Security.Http.{Trace}

pub data QueryKind : Type 0 where
  domain ip asn nameserver entity : QueryKind

-- The `TTL_` constants, in nanoseconds.
unfoldable pub kind_ttl : QueryKind → ℕ
kind_ttl domain = seconds 3600
kind_ttl ip = seconds 86400
kind_ttl asn = seconds 86400
kind_ttl nameserver = seconds 21600
kind_ttl entity = seconds 3600

unfoldable pub tag : QueryKind → Text
tag domain = text "domain"
tag ip = text "ip"
tag asn = text "asn"
tag nameserver = text "nameserver"
tag entity = text "entity"

unfoldable pub cache_key : QueryKind → Text → Text
cache_key kind normalized = tag kind ++ (58 ∷ normalized)

-- `str::is_ascii`.
unfoldable pub is_ascii : Text → Bool
is_ascii [] = true
is_ascii (c ∷ s) = if ltb c 128 then is_ascii s else false

-- `idna::domain_to_ascii`, with `to_lowercase` beyond ASCII, is an argument.
unfoldable pub normalise_domain : (Text → Option Text) → Text → Result RdapError Text
normalise_domain domain_to_ascii typed =
    let name = to_lowercase (trim_end_matches 46 (trim typed)) in
    if is_empty name
    then err invalid_input
    else if is_ascii name
    then ok name
    else elim (domain_to_ascii name) [ some ascii ↦ ok ascii | none ↦ err invalid_input ]

pub record ClientConfig : Type 0 where
  pub fetcher : FetcherConfig
  pub ssrf : SsrfConfig
  pub cache : Bool
  pub bootstrap_url : Option Text
  pub custom_bootstrap_servers : List (Text × Text)
  pub reuse_connections : Bool
  pub max_connections_per_host : ℕ
  -- whether there is a limiter; its settings are in RateLimit.antt
  pub rate_limit : Bool

-- The parts of the client that do not change.
pub record Parts : Type 0 where
  pub fetcher : Attempt.Fetcher
  pub rate_limiter : Bool

-- A refresh in the background: its key, its URL and its kind. It holds the guard of its key.
pub record Refresh : Type 0 where
  pub key : Text
  pub url : Text
  pub kind : QueryKind

-- What changes: the state of the fetcher, the bootstrap, the cache, and the tasks spawned, newest first.
pub record State : Type 0 where
  pub fetch : Attempt.State
  pub bootstrap : Bootstrap
  pub cache : Option MemoryCache
  pub spawned : List Refresh

-- What the client runs in, besides what the fetcher runs in.
pub record World : Type 0 where
  pub fetch : Attempt.World
  pub bootstrap_from_slice : Text → Option BootstrapFile
  pub parse_network : Text → Option IpNetwork
  pub parse_addr : Text → Option IpAddr
  -- `Display` of an address, `Utc::now().to_rfc3339()`
  pub print_addr : IpAddr → Text
  pub queried_at : Trace → Text
  pub domain_to_ascii : Text → Option Text
  -- the monotonic clock, in nanoseconds
  pub instant : Trace → ℕ
  pub keeps : Keeps
  -- the answer of the rate limiter: `none`, or the wait of a refusal
  pub acquire : Trace → Text → Option ℕ
  -- the number of refreshes in flight, as a claim reads it
  pub in_flight_len : Trace → ℕ
  -- the cache as the other tasks leave it when the wait for a leader ends
  pub await_refresh : Trace → Text → MemoryCache → MemoryCache

unfoldable pub outside : World → Outside
outside w = record {
  net = w.fetch.net;
  get_unchecked = w.fetch.get;
  from_slice = w.bootstrap_from_slice;
  parse_network = w.parse_network;
  parse_addr = w.parse_addr;
  clock = w.instant;
}

abbrev base_of : Option Text → Bootstrap
base_of (some url) = Resolver.with_base_url url
base_of none = Resolver.new

-- `MemoryCache::new()`.
abbrev cache_of : Bool → Option MemoryCache
cache_of true = some (Cache.with_config (seconds 300))
cache_of false = none

unfoldable pub bootstrap_of : ClientConfig → Bootstrap
bootstrap_of config =
    let b =
      Resolver.set_egress_timeout config.fetcher.timeout
        (Resolver.set_secure_egress config.ssrf.enabled (base_of config.bootstrap_url)) in
    elim config.custom_bootstrap_servers [
      | [] ↦ b
      | s ∷ servers ↦ Resolver.set_custom_servers (s ∷ servers) b
    ]

-- The settings of the fetcher.
abbrev pub merged : ClientConfig → FetcherConfig
merged config = record config.fetcher {
  reuse_connections = config.reuse_connections;
  max_connections_per_host = config.max_connections_per_host;
}

unfoldable pub with_config : ClientConfig → Attempt.State → Result RdapError (Parts × State)
with_config config idle = with_full_dependencies config.ssrf (merged config) >>= λ fetcher. ok (
  record { fetcher = fetcher; rate_limiter = config.rate_limit },
  record {
    fetch = idle;
    bootstrap = bootstrap_of config;
    cache = cache_of config.cache;
    spawned = [];
  },
)

unfoldable pub clear_cache : State → State
clear_cache s = record s {
  cache = elim s.cache [ some c ↦ some (Cache.clear c) | none ↦ none ];
  bootstrap = Resolver.clear_cache s.bootstrap;
}

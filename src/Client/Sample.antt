-- ===== src/Client/Sample.antt =====
-- A client, and what it runs in, for tests.
use rdapify.Base.{ℕ, true, false, none, some, []}
use rdapify.Base.Text.{text}
use rdapify.Core.Fetcher.Config as Config
use rdapify.Core.Fetcher.Sample as Sample
use rdapify.Cache.{with_config}
use rdapify.Client as Client
use rdapify.Client.{ClientConfig, Parts, QueryKind, State, World, cache_key, normalise_domain}

-- A registry, and a bootstrap file, that answer with a status of their own.
abbrev pub world : ℕ → World
world status = record {
  fetch = Sample.world status;
  bootstrap_from_slice = λ body. none;
  parse_network = λ t. none;
  parse_addr = λ t. none;
  print_addr = λ addr. [];
  queried_at = λ trace. text "now";
  domain_to_ascii = λ name. some name;
  instant = λ trace. 0;
  keeps = λ now key entry. true;
  acquire = λ trace host. none;
  in_flight_len = λ trace. 0;
  await_refresh = λ trace key c. c;
}

abbrev pub config : ClientConfig
config = record {
  fetcher = Config.default_config (text "rdapify");
  ssrf = Sample.fetcher.ssrf;
  cache = true;
  bootstrap_url = none;
  custom_bootstrap_servers = [];
  reuse_connections = true;
  max_connections_per_host = 10;
  rate_limit = false;
}

abbrev pub parts : Parts
parts = record { fetcher = Sample.fetcher; rate_limiter = false }

abbrev pub idle : State
idle = record {
  fetch = Sample.fresh;
  bootstrap = Client.bootstrap_of config;
  cache = some (with_config 300);
  spawned = [];
}

-- ===== src/Service/Tests.antt =====
-- The theorems about the service at concrete inputs.
use rdapify.Base.{ℕ, ◌<◌, ◌≤◌, ◌≡◌, ◌⊎◌, refl, true, false, none, some, List, [], ◌∷◌, length}
use rdapify.Base.Text.{Text, text, to_lowercase, lower, is_empty, eq_ignore_ascii_case, text_eq}
use rdapify.Base.Text.Parts.{trim, trim_end_matches, split}
use rdapify.Base.Result.{Result, ok, err}
use rdapify.Base.Text.Keyed.{get, put}
use rdapify.Types.Error as Error
use rdapify.Types.Error.{RdapError}
use rdapify.Types.Response.{DomainResponse}
use rdapify.Bootstrap.Data as Data
use rdapify.Security.Egress as Egress
use rdapify.Security.Url as Url
use rdapify.Security.Ip as Ip
use rdapify.Net as Net
use rdapify.Client as Client
use rdapify.Client.{World, Parts, State, normalise_domain}
use rdapify.Client.Availability.{domain_available}
use rdapify.Client.Queries as Queries
use rdapify.Core.Fetcher.Sample as Sample
use rdapify.Bootstrap.Resolver as Resolver
use rdapify.Service.{BatchRequest, BatchDomainResult, batch_lookup}
use rdapify.Batch.{BatchQuery, BatchItemResult, Runtime, item_of, process_query}
use rdapify.Service.Batches.{SaysAll, batch_lookup_lem, unserved_is_available}

-- A bootstrap file without any service.
abbrev world : World
world = record {
  fetch = Sample.world 200;
  bootstrap_from_slice = λ body. some (record { services = [] });
  parse_network = λ t. none;
  parse_addr = λ t. none;
  print_addr = λ addr. [];
  queried_at = λ trace. text "now";
  domain_to_ascii = λ name. some name;
  instant = λ trace. 0;
  keeps = λ now key entry. true;
  acquire = λ trace host. none;
  in_flight_len = λ trace. 0;
  await_refresh = λ trace key c. c;
}

abbrev parts : Parts
parts = record { fetcher = Sample.fetcher; rate_limiter = false }

abbrev idle : State
idle = record { fetch = Sample.fresh; bootstrap = Resolver.new; cache = none; spawned = [] }

abbrev asked : BatchRequest
asked = record { queries = text "a.de" ∷ text "b.de" ∷ []; concurrency = none }

-- Each name without a server.
abbrev outcome : ℕ → Text → Result RdapError DomainResponse
outcome place name = err (Error.no_server_found name)

abbrev answer_of : BatchQuery → BatchItemResult
answer_of (BatchQuery.domain name) = item_of (err (Error.no_server_found name))
answer_of _ = item_of (err Error.network)

abbrev runtime : Runtime
runtime = record {
  ran = λ place query. answer_of query;
  buffered = λ n l. l;
  buffer_unordered = λ n l. l;
}

batch_lookup_lem_example :
    (((length asked.queries ≡ 0) ⊎ (100 < length asked.queries))
      × (batch_lookup runtime asked ≡ err Error.invalid_input))
    ⊎ ((0 < length asked.queries)
        × (length asked.queries ≤ 100)
        × (l : List BatchDomainResult) × (batch_lookup runtime asked ≡ ok (some l))
        × SaysAll outcome 0 asked.queries l)
batch_lookup_lem_example =
    batch_lookup_lem runtime outcome (λ n results many. refl) (λ place name. refl) asked

normal_name : normalise_domain world.domain_to_ascii (text "a.de") ≡ ok (text "a.de")
unfolding normalise_domain is_empty to_lowercase trim_end_matches trim Client.is_ascii
normal_name = refl

unserved :
    (Queries.domain world parts (text "a.de") idle).0 ≡ err (Error.no_server_found (text "a.de"))
unfolding Queries.domain Queries.named Queries.at_server normalise_domain is_empty to_lowercase
    trim_end_matches trim Client.is_ascii Resolver.for_domain Data.normalize_domain_input
    Data.longest_suffix Data.probe split get put Resolver.new Resolver.build Resolver.get_resource
    Resolver.read_cache_if_fresh Resolver.fetch_and_cache Resolver.fetch_resource lower text_eq
    Resolver.is_expired Client.outside Egress.secure_request Url.validate_url Egress.resolve_host
    Egress.vet_host Url.validate_resolved_ips Ip.is_blocked_ip Ip.canonicalize Ip.is_broadcast
    Ip.is_cgnat_v4 Ip.is_link_local Ip.is_loopback Ip.is_private_ip Ip.is_private_v4
    Ip.is_special_use Ip.is_test_net_v4 Ip.is_unspecified Net.is_broadcast_v4 Net.is_link_local_v4
    Net.is_loopback_v4 Net.is_private_std_v4 Net.is_unspecified_v4 eq_ignore_ascii_case
    Egress.follow Egress.receive Egress.read_limited Egress.read_chunks Resolver.read_capped_bytes
    Data.parse Data.parse_dns Data.match_domain
unserved = refl

abbrev runs_idle : Runtime
runs_idle = record {
  ran = λ place query. (process_query world parts query idle).0;
  buffered = λ n l. l;
  buffer_unordered = λ n l. l;
}

unserved_is_available_example :
    (batch_lookup runs_idle (record { queries = text "a.de" ∷ []; concurrency = none })
      ≡ ok (
          some (
            record { domain = text "a.de"; available = true; expires_at = none; error = none }
            ∷ [])))
    × ((domain_available world parts (text "a.de") idle).0
        ≡ err (Error.no_server_found (text "a.de")))
unserved_is_available_example =
    unserved_is_available world parts runs_idle (text "a.de") (text "a.de") (text "a.de") idle
      (λ n results many. refl) refl normal_name unserved

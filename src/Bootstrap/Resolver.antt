-- ===== src/Bootstrap/Resolver.antt =====
-- crates/rdap-bootstrap/src/lib.rs: the downloads, the cache of parsed files, and the queries. Times are
-- nanoseconds of a clock that does not run backwards. The callers that wait for another caller's
-- download are left out.
pub mod Egress
pub mod Gone
pub mod Kept
pub mod Posture
use rdapify.Base.{
  ℕ, suc, ◌+◌, ◌-◌, ◌*◌, ◌^◌, Bool, true, false, ◌&&◌, not, Option, none, some, List, [], ◌∷◌, ◌++◌,
  map, leb, find, if◌then◌else◌,
}
use rdapify.Base.Text.{Text, text, to_lowercase, is_empty}
use rdapify.Base.Text.Parts.{trim, trim_end_matches, split, join, split_once}
use rdapify.Base.Text.Number.{parse_unsigned, print_unsigned}
use rdapify.Base.Text.Keyed.{get, put}
use rdapify.Base.Result.{Result, ok, err, ◌>>=◌}
use rdapify.Net.{IpAddr}
use rdapify.Types.Error.{
  RdapError, invalid_input, no_server_found, parse_error, invalid_url, http_status, network,
}
use rdapify.Types.Error as Error
use rdapify.Security.Error.{SecurityError}
use rdapify.Security.Error as SE
use rdapify.Security.Url.{Url}
use rdapify.Security.Http.{
  Response, Sent, timed_out, failed, answered, Trace, sent_unchecked, Environment,
  HttpSecurityPolicy,
}
use rdapify.Security.Egress.{secure_request, read_chunks}
use rdapify.Core.Fetcher.Attempt.{map_security_error}
use rdapify.Security.Egress.{default_policy}
use rdapify.Bootstrap.Data.{
  BootstrapFile, IpNetwork, ResourceData, Resource, dns_file, ipv4_file, ipv6_file, asn_file,
  resource_name, parse, longest_suffix, normalize_domain_input, match_ip, match_asn, match_domain,
}

pub record CacheEntry : Type 0 where
  pub contents : ResourceData
  pub fetched_at : ℕ

unfoldable pub is_expired : ℕ → ℕ → CacheEntry → Bool
is_expired now ttl entry = not (leb (now - entry.fetched_at) ttl)

-- The configuration, and the shared cache by the name of the file.
pub record Bootstrap : Type 0 where
  pub base_url : Text
  pub ttl : ℕ
  pub egress_policy : HttpSecurityPolicy
  pub secure_egress : Bool
  pub cache : List (Text × CacheEntry)
  pub custom_servers : List (Text × Text)

unfoldable pub build : Text → Bootstrap
build base_url = record {
  base_url = base_url;
  ttl = 86400 * 1000000000;
  egress_policy = default_policy;
  secure_egress = true;
  cache = [];
  custom_servers = [];
}

-- `Bootstrap::new` and `with_base_url`.
unfoldable pub new : Bootstrap
new = build (text "https://data.iana.org/rdap")

unfoldable pub with_base_url : Text → Bootstrap
with_base_url base_url = build (trim_end_matches 47 base_url)

unfoldable pub set_secure_egress : Bool → Bootstrap → Bootstrap
set_secure_egress enabled b = record b { secure_egress = enabled }

unfoldable pub set_egress_timeout : ℕ → Bootstrap → Bootstrap
set_egress_timeout timeout b = record b {
  egress_policy = record b.egress_policy { timeout = timeout };
}

-- Of two keys that differ in case only, the first counts; the program's map has no order.
unfoldable pub set_custom_servers : List (Text × Text) → Bootstrap → Bootstrap
set_custom_servers servers b = record b {
  custom_servers = map (λ (e : Text × Text). (to_lowercase e.0, e.1)) servers;
}

unfoldable pub clear_cache : Bootstrap → Bootstrap
clear_cache b = record b { cache = [] }

-- What lies outside: see `World` of the fetcher.
pub record Outside : Type 0 where
  pub net : Environment
  pub get_unchecked : Trace → Text → Sent
  -- `serde_json::from_slice`, `str::parse::<IpNetwork>` and `str::parse::<IpAddr>`
  pub from_slice : Text → Option BootstrapFile
  pub parse_network : Text → Option IpNetwork
  pub parse_addr : Text → Option IpAddr
  pub clock : Trace → ℕ

error_of : SecurityError → RdapError
error_of SE.network = network
error_of _ = parse_error

abbrev pub max_bootstrap_body_bytes : ℕ
max_bootstrap_body_bytes = 1024 * 1024

unfoldable pub read_capped_bytes : Response → Result RdapError Text
unfolding error_of
read_capped_bytes response = elim (read_chunks max_bootstrap_body_bytes [] response.body) [
  | ok body ↦ ok body
  | err e ↦ err (error_of e)
]

module _ (w : Outside) where
  pub parsed : Resource → Option BootstrapFile → Result RdapError ResourceData
  parsed resource none = err parse_error
  parsed resource (some file) = ok (parse w.parse_network resource file)

  pub on_response : Resource → Text → Result RdapError Response → Result RdapError ResourceData
  unfolding parsed
  on_response resource url (err e) = err e
  on_response resource url (ok response) =
      if not (w.net.is_success response.status)
      then err (http_status response.status url)
      else read_capped_bytes response >>= λ body. parsed resource (w.from_slice body)

  checked : Bootstrap → Text → Result SecurityError Response → Result RdapError Response
  checked b url (ok response) = ok response
  checked b url (err e) = err (map_security_error w.net e url b.egress_policy.timeout)

  unchecked : Bootstrap → Text → Sent → Result RdapError Response
  unchecked b url timed_out = err network
  unchecked b url failed = err network
  unchecked b url (answered response) = ok response

  pub send_secure : Bootstrap → Text → Option Url → Trace → Result RdapError Response × Trace
  unfolding checked
  send_secure b url none trace = (err (invalid_url url), trace)
  send_secure b url (some parsed_url) trace =
      let (r, trace') = secure_request w.net parsed_url b.egress_policy trace in
      (checked b url r, trace')

  unfoldable pub send : Bootstrap → Text → Trace → Result RdapError Response × Trace
  unfolding send_secure unchecked
  send b url trace =
      if b.secure_egress
      then send_secure b url (w.net.parse url) trace
      else (unchecked b url (w.get_unchecked trace url), sent_unchecked url ∷ trace)

  unfoldable pub fetch_resource :
      Bootstrap → Resource → Trace → Result RdapError ResourceData × Trace
  unfolding send on_response
  fetch_resource b resource trace =
      let url = b.base_url ++ (text "/" ++ (resource_name resource ++ text ".json")) in
      let (r, trace') = send b url trace in (on_response resource url r, trace')

  abbrev stored :
      Bootstrap
      → Resource
      → Result RdapError ResourceData × Trace
      → Result RdapError ResourceData × (Bootstrap × Trace)
  stored b resource (err e, trace) = (err e, (b, trace))
  stored b resource (ok contents, trace) =
      let entry : CacheEntry = record { contents = contents; fetched_at = w.clock trace } in
      (ok contents, (record b { cache = put (resource_name resource) entry b.cache }, trace))

  unfoldable pub fetch_and_cache :
      Bootstrap → Resource → Trace → Result RdapError ResourceData × (Bootstrap × Trace)
  fetch_and_cache b resource trace = stored b resource (fetch_resource b resource trace)

  fresh_in : ℕ → ℕ → Option CacheEntry → Option ResourceData
  fresh_in now ttl none = none
  fresh_in now ttl (some entry) = if is_expired now ttl entry then none else some entry.contents

  unfoldable pub read_cache_if_fresh : Bootstrap → Resource → ℕ → Option ResourceData
  unfolding fresh_in
  read_cache_if_fresh b resource now = fresh_in now b.ttl (get (resource_name resource) b.cache)

  -- The caller that leads: no other download of the file is in flight.
  unfoldable pub get_resource :
      Bootstrap → Resource → Trace → Result RdapError ResourceData × (Bootstrap × Trace)
  get_resource b resource trace = elim (read_cache_if_fresh b resource (w.clock trace)) [
    | some contents ↦ (ok contents, (b, trace))
    | none ↦ fetch_and_cache b resource trace
  ]

  abbrev pub Answer : Type 0
  Answer = Result RdapError Text × (Bootstrap × Trace)

  abbrev after :
      (ResourceData → Result RdapError Text)
      → Result RdapError ResourceData × (Bootstrap × Trace)
      → Answer
  after match_in (r, s) = (r >>= match_in, s)

  in_index : Bootstrap → Text → Text → Trace → Option Text → Answer
  in_index b normalized domain trace (some server) = (ok server, (b, trace))
  in_index b normalized domain trace none =
      after (λ d. match_domain d normalized domain) (get_resource b dns_file trace)

  named : Bootstrap → Text → Result RdapError Text → Trace → Answer
  unfolding in_index
  named b domain (err e) trace = (err e, (b, trace))
  named b domain (ok normalized) trace =
      in_index b normalized domain trace (longest_suffix b.custom_servers normalized)

  unfoldable pub for_domain : Bootstrap → Text → Trace → Answer
  unfolding named
  for_domain b domain trace = named b domain (normalize_domain_input domain) trace

  at_addr : Bootstrap → Resource → Text → Option IpAddr → Trace → Answer
  at_addr b resource text none trace = (err invalid_input, (b, trace))
  at_addr b resource text (some addr) trace =
      after (λ d. match_ip d addr text) (get_resource b resource trace)

  unfoldable pub for_ipv4 : Bootstrap → Text → Trace → Answer
  unfolding at_addr
  for_ipv4 b text trace = at_addr b ipv4_file text (w.parse_addr text) trace

  unfoldable pub for_ipv6 : Bootstrap → Text → Trace → Answer
  unfolding at_addr
  for_ipv6 b text trace = at_addr b ipv6_file text (w.parse_addr text) trace

  unfoldable pub for_asn : Bootstrap → ℕ → Trace → Answer
  for_asn b n trace = after (λ d. match_asn d n) (get_resource b asn_file trace)

-- ===== src/Bootstrap/Data.antt =====
-- crates/rdap-bootstrap/src/lib.rs: the bootstrap files, parsed into what a lookup needs, and the lookups.
-- The feature `psl-validation`, which is off by default, is left out.
pub mod Clean
pub mod Longest
pub mod Matches
use rdapify.Base.{
  ℕ, suc, ◌+◌, ◌-◌, ◌*◌, ◌^◌, Bool, true, false, ◌&&◌, not, Option, none, some, List, [], ◌∷◌, ◌++◌,
  map, leb, find, if◌then◌else◌,
}
use rdapify.Base.Text.{Text, text, to_lowercase, is_empty}
use rdapify.Base.Text.Parts.{trim, trim_end_matches, split, join, split_once}
use rdapify.Base.Text.Number.{parse_unsigned, print_unsigned}
use rdapify.Base.Text.Keyed.{get, put}
use rdapify.Base.Result.{Result, ok, err, ◌>>=◌}
use rdapify.Net.{IpAddr}
use rdapify.Types.Error.{
  RdapError, invalid_input, no_server_found, parse_error, invalid_url, http_status, network,
}
use rdapify.Types.Error as Error
use rdapify.Security.Error.{SecurityError}
use rdapify.Security.Error as SE
use rdapify.Security.Url.{Url}
use rdapify.Security.Http.{
  Response, Sent, timed_out, failed, answered, Trace, sent_unchecked, Environment,
  HttpSecurityPolicy,
}
use rdapify.Security.Egress.{secure_request, read_chunks}
use rdapify.Core.Fetcher.Attempt.{map_security_error}

-- The version is not used.
pub record BootstrapFile : Type 0 where
  pub services : List (List Text × List Text)

-- `ipnetwork::IpNetwork`, as the addresses that it contains.
abbrev pub IpNetwork : Type 0
IpNetwork = IpAddr → Bool

pub data ResourceData : Type 0 where
  dns : List (Text × List Text) → ResourceData
  ip : List (IpNetwork × Text) → ResourceData
  asn : List ((ℕ × ℕ) × Text) → ResourceData

abbrev pub no_slash : Text → Text
no_slash = trim_end_matches 47

unfoldable pub first_server : List Text → Option Text
first_server servers = find (λ s. not (is_empty s)) (map no_slash servers)

-- The servers of a DNS service.
unfoldable pub usable : List Text → List Text
usable [] = []
usable (s ∷ servers) =
    let rest = usable servers in if is_empty (no_slash s) then rest else no_slash s ∷ rest

abbrev pub or_default : Option (List Text) → List Text
or_default none = []
or_default (some servers) = servers

unfoldable pub add_patterns :
    List Text → List Text → List (Text × List Text) → List (Text × List Text)
add_patterns servers [] index = index
add_patterns servers (pattern ∷ patterns) index =
    let key = to_lowercase pattern in
    add_patterns servers patterns (put key (or_default (get key index) ++ servers) index)

unfoldable pub parse_dns :
    List (List Text × List Text) → List (Text × List Text) → List (Text × List Text)
parse_dns [] index = index
parse_dns ((patterns, servers) ∷ services) index = elim (usable servers) [
  | [] ↦ parse_dns services index
  | s ∷ rest ↦ parse_dns services (add_patterns (s ∷ rest) patterns index)
]

-- `"N"` or `"START-END"`, with `u32` numbers.
unfoldable pub parse_asn_range : Text → Option (ℕ × ℕ)
parse_asn_range pattern = elim (split_once 45 pattern) [
  | some (start, end) ↦ elim (parse_unsigned (2 ^ 32) (trim start)) [
    | none ↦ none
    | some s ↦ elim (parse_unsigned (2 ^ 32) (trim end)) [ none ↦ none | some e ↦ some (s, e) ]
  ]
  | none ↦ elim (parse_unsigned (2 ^ 32) (trim pattern)) [ none ↦ none | some n ↦ some (n, n) ]
]

module _ {A : Type 0} (read : Text → Option A) where
  -- The patterns that can be read, each with the server.
  unfoldable pub entries : Text → List Text → List (A × Text)
  entries server [] = []
  entries server (pattern ∷ patterns) =
      let rest = entries server patterns in
      elim (read pattern) [ none ↦ rest | some a ↦ (a, server) ∷ rest ]

  unfoldable pub parse_services : List (List Text × List Text) → List (A × Text)
  parse_services [] = []
  parse_services ((patterns, servers) ∷ services) =
      let rest = parse_services services in
      elim (first_server servers) [ none ↦ rest | some server ↦ entries server patterns ++ rest ]

pub data Resource : Type 0 where
  dns_file ipv4_file ipv6_file asn_file : Resource

abbrev pub resource_name : Resource → Text
resource_name dns_file = text "dns"
resource_name ipv4_file = text "ipv4"
resource_name ipv6_file = text "ipv6"
resource_name asn_file = text "asn"

-- `ResourceData::parse`; the first argument is `str::parse::<IpNetwork>`.
unfoldable pub parse : (Text → Option IpNetwork) → Resource → BootstrapFile → ResourceData
parse parse_network dns_file file = dns (parse_dns file.services [])
parse parse_network asn_file file = asn (parse_services parse_asn_range file.services)
parse parse_network ipv4_file file = ip (parse_services parse_network file.services)
parse parse_network ipv6_file file = ip (parse_services parse_network file.services)

module _ {V : Type 0} (index : List (Text × V)) where
  -- The labels, then ever fewer of them from the front.
  unfoldable pub probe : List Text → Option V
  probe [] = none
  probe (label ∷ labels) =
      let rest = probe labels in
      elim (get (join (text ".") (label ∷ labels)) index) [ none ↦ rest | some v ↦ some v ]

  unfoldable pub longest_suffix : Text → Option V
  longest_suffix domain =
      let name = to_lowercase (trim_end_matches 46 domain) in
      if is_empty name then none else probe (split 46 name)

unfoldable pub normalize_domain_input : Text → Result RdapError Text
normalize_domain_input domain =
    let normalized = to_lowercase (trim_end_matches 46 (trim domain)) in
    if is_empty normalized then err invalid_input else ok normalized

abbrev pub found_or : Text → Option Text → Result RdapError Text
found_or query none = err (no_server_found query)
found_or query (some server) = ok server

unfoldable pub match_ip : ResourceData → IpAddr → Text → Result RdapError Text
match_ip (ip nets) addr original = elim (find (λ (e : IpNetwork × Text). e.0 addr) nets) [
  | none ↦ err (no_server_found original)
  | some e ↦ ok e.1
]
match_ip (dns index) addr original = err parse_error
match_ip (asn ranges) addr original = err parse_error

-- The end of `for_asn`.
unfoldable pub match_asn : ResourceData → ℕ → Result RdapError Text
match_asn (asn ranges) n = elim (find (λ (e : (ℕ × ℕ) × Text). leb e.0.0 n && leb n e.0.1) ranges) [
  | none ↦ err (no_server_found (text "AS" ++ print_unsigned n))
  | some e ↦ ok e.1
]
match_asn (dns index) n = err parse_error
match_asn (ip nets) n = err parse_error

-- The end of `for_domain`: `servers.first()`.
unfoldable pub match_domain : ResourceData → Text → Text → Result RdapError Text
match_domain (dns index) normalized domain = elim (longest_suffix index normalized) [
  | none ↦ err (no_server_found domain)
  | some servers ↦ elim servers [ [] ↦ err (no_server_found domain) | s ∷ rest ↦ ok s ]
]
match_domain (ip nets) normalized domain = err parse_error
match_domain (asn ranges) normalized domain = err parse_error

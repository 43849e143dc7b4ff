-- ===== src/Security/Guard.antt =====
-- crates/rdap-security/src/lib.rs: `SsrfGuard`, the check on a URL string before any network call.
pub mod Agreement
use rdapify.Base.{
  Bool, true, false, ◌&&◌, ◌||◌, not, Option, none, some, List, [], ◌∷◌, any, bit_and, ◌==◌,
  if◌then◌else◌,
}
use rdapify.Base.Text.{Text, text, text_eq, to_lowercase}
use rdapify.Base.Text.Parts.{ends_with}
use rdapify.Base.Result.{Result, ok, err, ◌>>=◌}
use rdapify.Net.{
  Ipv4Addr, Ipv6Addr, octet, is_loopback_v4, is_private_std_v4, is_link_local_v4, is_broadcast_v4,
  is_unspecified_v4, is_loopback_v6, is_unspecified_v6, to_ipv4_mapped,
}
use rdapify.Types.Error.{RdapError, invalid_url, insecure_scheme, invalid_input, ssrf_blocked}
use rdapify.Security.Ip.{is_cgnat_v4, is_test_net_v4, is_nat64_v6}
use rdapify.Security.Url.{Url, Host, domain, ipv4, ipv6}
use rdapify.Security.Http.{Environment}

pub record SsrfConfig : Type 0 where
  pub enabled : Bool
  pub blocked_domains : List Text
  pub allowed_domains : List Text

abbrev pub default_config : SsrfConfig
default_config = record { enabled = true; blocked_domains = []; allowed_domains = [] }

-- The guard is its configuration.
abbrev pub SsrfGuard : Type 0
SsrfGuard = SsrfConfig

unfoldable pub is_enabled : SsrfGuard → Bool
is_enabled guard = guard.enabled

-- Why an address is refused, for the message of the error.
pub data Reason : Type 0 where
  loopback_v4 private_v4 link_local_v4 broadcast_v4 unspecified_v4 cgnat test_net : Reason
  loopback_v6 link_local_v6 unique_local nat64 unspecified_v6 : Reason

pub ipv4_reason : Ipv4Addr → Option Reason
ipv4_reason ip =
    if is_loopback_v4 ip
    then some loopback_v4
    else if is_private_std_v4 ip
    then some private_v4
    else if is_link_local_v4 ip
    then some link_local_v4
    else if is_broadcast_v4 ip
    then some broadcast_v4
    else if is_unspecified_v4 ip
    then some unspecified_v4
    else if is_cgnat_v4 ip
    then some cgnat
    else if is_test_net_v4 ip
    then some test_net
    else none

pub ipv6_reason : Ipv6Addr → Option Reason
ipv6_reason ip =
    if is_loopback_v6 ip
    then some loopback_v6
    else if octet 120 ip.bits == 0xfe && bit_and (octet 112 ip.bits) 0xc0 == 0x80
    then some link_local_v6
    else if bit_and (octet 120 ip.bits) 0xfe == 0xfc
    then some unique_local
    else if is_nat64_v6 ip
    then some nat64
    else if is_unspecified_v6 ip
    then some unspecified_v6
    else none

abbrev refuse : Text → Option Reason → Result RdapError (Unit {0})
refuse raw_url none = ok tt
refuse raw_url (some reason) = err (ssrf_blocked raw_url)

unfoldable pub check_ipv4 : Ipv4Addr → Text → Result RdapError (Unit {0})
unfolding ipv4_reason
check_ipv4 ip raw_url = refuse raw_url (ipv4_reason ip)

unfoldable pub check_ipv6 : Ipv6Addr → Text → Result RdapError (Unit {0})
unfolding ipv6_reason
check_ipv6 ip raw_url = refuse raw_url (ipv6_reason ip)

-- The domain itself, or a name below it, whatever the case.
unfoldable pub covers : Text → Text → Bool
covers host d =
    let d = to_lowercase d in let h = to_lowercase host in text_eq h d || ends_with h (46 ∷ d)

unfoldable pub check_allowed : SsrfGuard → Option Text → Text → Result RdapError (Unit {0})
check_allowed guard none raw_url = err invalid_input
check_allowed guard (some host) raw_url =
    if any (covers host) guard.allowed_domains then ok tt else err (ssrf_blocked raw_url)

unfoldable pub check_host : SsrfGuard → Option Host → Text → Result RdapError (Unit {0})
check_host guard none raw_url = err invalid_input
check_host guard (some (domain d)) raw_url =
    if any (covers d) guard.blocked_domains then err (ssrf_blocked raw_url) else ok tt
check_host guard (some (ipv4 a)) raw_url = check_ipv4 a raw_url
check_host guard (some (ipv6 a)) raw_url = elim (to_ipv4_mapped a) [
  | some b ↦ check_ipv4 b raw_url
  | none ↦ check_ipv6 a raw_url
]

unfoldable pub check_url : SsrfGuard → Url → Text → Result RdapError (Unit {0})
check_url guard url raw_url =
    if not (text_eq url.scheme (text "https"))
    then err (insecure_scheme url.scheme)
    else elim guard.allowed_domains [
      | [] ↦ check_host guard url.host raw_url
      | _ ∷ _ ↦ check_allowed guard url.host_str raw_url
    ]

unfoldable pub validate : Environment → SsrfGuard → Text → Result RdapError (Unit {0})
unfolding check_url
validate env guard raw_url = if not guard.enabled then ok tt else elim (env.parse raw_url) [
  | none ↦ err (invalid_url raw_url)
  | some url ↦ check_url guard url raw_url
]

-- ===== src/Security/Url.antt =====
-- crates/rdap-security/src/url.rs and dns.rs: a parsed URL, and the addresses that a host has.
--
-- `url::Url` comes from the `url` crate, which is not in the repository. A `Url` here is what the
-- program can read from one, and any combination of answers is allowed.
pub mod Safe
pub mod Resolved
use rdapify.Base.{ℕ, Bool, true, false, ◌||◌, not, Option, none, some, List, [], ◌∷◌, if◌then◌else◌}
use rdapify.Base.Text.{Text, text, text_eq, is_empty, eq_ignore_ascii_case}
use rdapify.Base.Result.{Result, ok, err}
use rdapify.Net.{Ipv4Addr, Ipv6Addr, IpAddr, v4, v6}
use rdapify.Security.Error.{
  SecurityError, invalid_scheme, invalid_host, credentials_in_url, blocked_ip, loopback_ip,
  link_local_ip, private_ip,
}
use rdapify.Security.Ip.{is_blocked_ip, is_loopback, is_link_local, is_private_ip}

pub data Host : Type 0 where
  domain : Text → Host
  ipv4 : Ipv4Addr → Host
  ipv6 : Ipv6Addr → Host

pub record Url : Type 0 where
  pub as_str : Text
  pub scheme : Text
  pub username : Text
  pub password : Option Text
  pub host : Option Host
  pub host_str : Option Text
  pub port_or_known_default : Option ℕ

abbrev pub is_some {ℓ} : {A : Type ℓ} → Option A → Bool
is_some none = false
is_some (some a) = true

check_host : Option Host → Result SecurityError (Unit {0})
check_host none = err invalid_host
check_host (some (domain d)) =
    if is_empty d || eq_ignore_ascii_case d (text "localhost") then err invalid_host else ok tt
check_host (some (ipv4 a)) = if is_blocked_ip (v4 a) then err blocked_ip else ok tt
check_host (some (ipv6 a)) = if is_blocked_ip (v6 a) then err blocked_ip else ok tt

unfoldable pub validate_url : Url → Result SecurityError (Unit {0})
unfolding check_host
validate_url url =
    if not (text_eq url.scheme (text "https"))
    then err invalid_scheme
    else if not (is_empty url.username) || is_some url.password
    then err credentials_in_url
    else check_host url.host

unfoldable pub validate_resolved_ips : List IpAddr → Result SecurityError (Unit {0})
validate_resolved_ips [] = ok tt
validate_resolved_ips (ip ∷ ips) =
    let rest = validate_resolved_ips ips in
    if is_loopback ip
    then err loopback_ip
    else if is_link_local ip
    then err link_local_ip
    else if is_private_ip ip
    then err private_ip
    else if is_blocked_ip ip
    then err blocked_ip
    else rest

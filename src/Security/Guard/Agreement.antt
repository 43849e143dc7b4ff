-- ===== src/Security/Guard/Agreement.antt =====
-- crates/rdap-security/src/lib.rs and ip.rs: the guard beside the classifiers of the egress pipeline.
use rdapify.Base.{
  ◌≡◌, ◌↔◌, true, false, ◌||◌, Option, none, some, List, [], ◌∷◌, ◌++◌, arith, any, Bool-cases,
  Option-cases, inl, inr, ◌⊎◌,
}
use rdapify.Base.Text.{Text, text_eq, text_eq_iff, to_lowercase}
use rdapify.Base.Text.Parts.{ends_with_iff}
use rdapify.Base.Result.{ok}
use rdapify.Net.{
  Ipv4Addr, Ipv6Addr, IpAddr, v4, v6, to_ipv4_mapped, is_loopback_v6, is_unspecified_v6,
}
use rdapify.Security.Ip.{
  is_blocked_ip, canonicalize, is_unique_local_v6, is_link_local_v6, is_nat64_v6,
}
use rdapify.Security.Ip.Cidr.{is_blocked_ip-mapped}
use rdapify.Security.Url.{Url, Host, domain, ipv4, ipv6}
use rdapify.Security.Guard.{SsrfGuard, check_ipv4, check_ipv6, check_host, covers}

check_ipv4_iff :
    (a : Ipv4Addr) (raw_url : Text)
    → (check_ipv4 a raw_url ≡ ok tt) ↔ (is_blocked_ip (v4 a) ≡ false)
unfolding check_ipv4 is_blocked_ip
check_ipv4_iff a raw_url = (λ h. ground arith, λ h. ground arith)

blocked_plain :
    (a : Ipv6Addr)
    → to_ipv4_mapped a ≡ none
    → is_blocked_ip (v6 a) ≡ (
        is_loopback_v6 a
        || is_unique_local_v6 a
        || is_link_local_v6 a
        || is_unspecified_v6 a
        || is_nat64_v6 a)
unfolding is_blocked_ip
blocked_plain a e = rw (e, is_blocked_ip, canonicalize) (rw e (ground arith))

check_ipv6_iff :
    (a : Ipv6Addr) (raw_url : Text)
    → to_ipv4_mapped a ≡ none
    → (check_ipv6 a raw_url ≡ ok tt) ↔ (is_blocked_ip (v6 a) ≡ false)
unfolding check_ipv6 is_unique_local_v6 is_link_local_v6
check_ipv6_iff a raw_url e = rw (blocked_plain a e) (λ h. ground arith, λ h. ground arith)

abbrev pub literal : IpAddr → Host
literal (v4 a) = ipv4 a
literal (v6 a) = ipv6 a

-- The guard refuses an address literal exactly when the resolver's check refuses the address.
pub check_host-literal_iff :
    (guard : SsrfGuard) (ip : IpAddr) (raw_url : Text)
    → (check_host guard (some (literal ip)) raw_url ≡ ok tt) ↔ (is_blocked_ip ip ≡ false)
unfolding check_host
check_host-literal_iff guard (v4 a) raw_url = check_ipv4_iff a raw_url
check_host-literal_iff guard (v6 a) raw_url = elim (Option-cases (to_ipv4_mapped a)) [
  | inl e ↦ rw (e, check_host) (check_ipv6_iff a raw_url e)
  | inr (b, e) ↦ rw (e, check_host, is_blocked_ip-mapped a b e) (check_ipv4_iff b raw_url)
]

-- A listed domain covers itself and the names below it, and nothing else, in any case.
pub covers_iff :
    (host d : Text)
    → (covers host d ≡ true) ↔ (
        (to_lowercase host ≡ to_lowercase d)
        ⊎ ((prefix : Text) × (to_lowercase host ≡ prefix ++ (46 ∷ to_lowercase d))))
unfolding covers
covers_iff host d =
    let same = text_eq_iff (to_lowercase host) (to_lowercase d) in
    let below = ends_with_iff (to_lowercase host) (46 ∷ to_lowercase d) in
    (
      λ h. elim (Bool-cases (text_eq (to_lowercase host) (to_lowercase d))) [
        | inl e ↦ inl (same.0 e)
        | inr e ↦ inr (below.0 (ground arith))
      ],
      elim [ inl e ↦ ground (arith, same.1 e) | inr p ↦ ground (arith, below.1 p) ],
    )

abbrev pub HostAccepted : SsrfGuard → Option Host → Type 0
HostAccepted guard none = ⊥
HostAccepted guard (some (domain d)) = any (covers d) guard.blocked_domains ≡ false
HostAccepted guard (some (ipv4 a)) = is_blocked_ip (v4 a) ≡ false
HostAccepted guard (some (ipv6 a)) = is_blocked_ip (v6 a) ≡ false

abbrev pub HostAllowed : SsrfGuard → Option Text → Type 0
HostAllowed guard none = ⊥
HostAllowed guard (some host) = any (covers host) guard.allowed_domains ≡ true

-- With an allowlist only the allowlist counts; without one, the blocklist and the blocked addresses.
abbrev pub Accepted : SsrfGuard → List Text → Url → Type 0
Accepted guard [] url = HostAccepted guard url.host
Accepted guard (d ∷ ds) url = HostAllowed guard url.host_str

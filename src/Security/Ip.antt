-- ===== src/Security/Ip.antt =====
-- crates/rdap-security/src/ip.rs: the address classes that may not be reached.
pub mod Bytes
pub mod Cidr
use rdapify.Base.{
  ℕ, ◌/◌, ◌%◌, ◌^◌, ◌≡◌, Bool, false, ◌&&◌, ◌||◌, not, none, some, bit_and, ◌==◌, if◌then◌else◌,
}
use rdapify.Net.{
  Ipv4Addr, Ipv6Addr, IpAddr, v4, v6, octet, is_loopback_v4, is_private_std_v4, is_link_local_v4,
  is_broadcast_v4, is_unspecified_v4, is_loopback_v6, is_unspecified_v6, to_ipv4_mapped,
}

unfoldable pub canonicalize : IpAddr → IpAddr
canonicalize (v6 a) = elim (to_ipv4_mapped a) [ some b ↦ v4 b | none ↦ v6 a ]
canonicalize (v4 a) = v4 a

unfoldable pub is_unique_local_v6 : Ipv6Addr → Bool
is_unique_local_v6 a = bit_and (octet 120 a.bits) 0xfe == 0xfc

unfoldable pub is_link_local_v6 : Ipv6Addr → Bool
is_link_local_v6 a = octet 120 a.bits == 0xfe && bit_and (octet 112 a.bits) 0xc0 == 0x80

unfoldable pub is_cgnat_v4 : Ipv4Addr → Bool
is_cgnat_v4 a = octet 24 a.bits == 100 && bit_and (octet 16 a.bits) 0xc0 == 0x40

unfoldable pub is_test_net_v4 : Ipv4Addr → Bool
is_test_net_v4 a =
    octet 24 a.bits == 192 && (octet 16 a.bits == 0 && octet 8 a.bits == 2)
    || octet 24 a.bits == 198 && (octet 16 a.bits == 51 && octet 8 a.bits == 100)
    || octet 24 a.bits == 203 && (octet 16 a.bits == 0 && octet 8 a.bits == 113)

-- Octets 4 to 11 are all zero.
pub nat64_well_known : Ipv6Addr → Bool
nat64_well_known a =
    octet 88 a.bits == 0
    && (octet 80 a.bits == 0
        && (octet 72 a.bits == 0
            && (octet 64 a.bits == 0
                && (octet 56 a.bits == 0
                    && (octet 48 a.bits == 0 && (octet 40 a.bits == 0 && octet 32 a.bits == 0))))))

pub nat64_local_use : Ipv6Addr → Bool
nat64_local_use a = octet 88 a.bits == 0 && octet 80 a.bits == 1

pub nat64_label : Ipv6Addr → Bool
nat64_label a =
    octet 120 a.bits == 0
    && (octet 112 a.bits == 0x64 && (octet 104 a.bits == 0xff && octet 96 a.bits == 0x9b))

unfoldable pub is_nat64_v6 : Ipv6Addr → Bool
is_nat64_v6 a = if not (nat64_label a) then false else nat64_well_known a || nat64_local_use a

unfoldable pub is_private_v4 : Ipv4Addr → Bool
is_private_v4 a = is_private_std_v4 a

unfoldable pub is_unspecified : IpAddr → Bool
is_unspecified (v4 a) = is_unspecified_v4 a
is_unspecified (v6 a) = is_unspecified_v6 a

unfoldable pub is_broadcast : IpAddr → Bool
is_broadcast (v4 a) = is_broadcast_v4 a
is_broadcast (v6 a) = false

unfoldable pub is_special_use : IpAddr → Bool
is_special_use (v4 a) = is_cgnat_v4 a || is_test_net_v4 a
is_special_use (v6 a) = is_nat64_v6 a

-- `IpAddr::is_loopback`, of the standard library.
abbrev is_loopback_std : IpAddr → Bool
is_loopback_std (v4 a) = is_loopback_v4 a
is_loopback_std (v6 a) = is_loopback_v6 a

unfoldable pub is_loopback : IpAddr → Bool
unfolding canonicalize
is_loopback ip = is_loopback_std (canonicalize ip)

abbrev is_private_canonical : IpAddr → Bool
is_private_canonical (v4 a) = is_private_v4 a
is_private_canonical (v6 a) = is_unique_local_v6 a

unfoldable pub is_private_ip : IpAddr → Bool
unfolding canonicalize is_private_v4
is_private_ip ip = is_private_canonical (canonicalize ip)

abbrev is_link_local_canonical : IpAddr → Bool
is_link_local_canonical (v4 a) = is_link_local_v4 a
is_link_local_canonical (v6 a) = is_link_local_v6 a

unfoldable pub is_link_local : IpAddr → Bool
unfolding canonicalize
is_link_local ip = is_link_local_canonical (canonicalize ip)

unfoldable pub is_blocked_ip : IpAddr → Bool
unfolding canonicalize is_loopback is_private_ip is_link_local is_unspecified is_broadcast
    is_special_use
is_blocked_ip ip =
    let ip = canonicalize ip in
    is_loopback ip
    || is_private_ip ip
    || is_link_local ip
    || is_unspecified ip
    || is_broadcast ip
    || is_special_use ip

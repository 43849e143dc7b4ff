-- ===== src/Net.antt =====
-- The addresses of Rust's `std::net`, as far as crates/rdap-security asks about them. An address is
-- the number that its octets spell, big end first (`Ipv4Addr::to_bits`, `Ipv6Addr::to_bits`).
use rdapify.Base.{
  ℕ, ◌/◌, ◌%◌, ◌^◌, ◌<◌, Bool, ◌&&◌, ◌||◌, Option, none, some, ◌==◌, leb, if◌then◌else◌,
}

pub record Ipv4Addr : Type 0 where
  pub bits : ℕ

pub record Ipv6Addr : Type 0 where
  pub bits : ℕ

pub data IpAddr : Type 0 where
  v4 : Ipv4Addr → IpAddr
  v6 : Ipv6Addr → IpAddr

-- The octets fit in 32 and 128 bits.
abbrev pub IsWide : IpAddr → Type 0
IsWide (v4 a) = a.bits < 2 ^ 32
IsWide (v6 a) = a.bits < 2 ^ 128

-- `octets()[i]` of either kind, for the shift `8 * i` counted from the low end.
abbrev pub octet : ℕ → ℕ → ℕ
octet shift bits = bits / 2 ^ shift % 256

-- 127.0.0.0/8
unfoldable pub is_loopback_v4 : Ipv4Addr → Bool
is_loopback_v4 a = octet 24 a.bits == 127

-- 10.0.0.0/8, 172.16.0.0/12, 192.168.0.0/16
unfoldable pub is_private_std_v4 : Ipv4Addr → Bool
is_private_std_v4 a =
    octet 24 a.bits == 10
    || octet 24 a.bits == 172 && (leb 16 (octet 16 a.bits) && leb (octet 16 a.bits) 31)
    || octet 24 a.bits == 192 && octet 16 a.bits == 168

-- 169.254.0.0/16
unfoldable pub is_link_local_v4 : Ipv4Addr → Bool
is_link_local_v4 a = octet 24 a.bits == 169 && octet 16 a.bits == 254

-- 255.255.255.255
unfoldable pub is_broadcast_v4 : Ipv4Addr → Bool
is_broadcast_v4 a = a.bits == 0xffff_ffff

-- 0.0.0.0
unfoldable pub is_unspecified_v4 : Ipv4Addr → Bool
is_unspecified_v4 a = a.bits == 0

-- ::1
unfoldable pub is_loopback_v6 : Ipv6Addr → Bool
is_loopback_v6 a = a.bits == 1

-- ::
unfoldable pub is_unspecified_v6 : Ipv6Addr → Bool
is_unspecified_v6 a = a.bits == 0

-- The IPv4 address of ::ffff:a.b.c.d, and `none` for any other.
unfoldable pub to_ipv4_mapped : Ipv6Addr → Option Ipv4Addr
to_ipv4_mapped a =
    if a.bits / 2 ^ 32 == 0xffff then some (record { bits = a.bits % 2 ^ 32 }) else none

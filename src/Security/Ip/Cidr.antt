-- ===== src/Security/Ip/Cidr.antt =====
-- The classifiers of ip.rs against CIDR blocks.
use rdapify.Base.{
  ℕ, ◌*◌, ◌/◌, ◌^◌, ◌≡◌, refl, Bool, true, false, ◌||◌, some, List, [], ◌∷◌, arith, ◌==◌, any,
}
use rdapify.Net.{Ipv4Addr, Ipv6Addr, v4, v6, to_ipv4_mapped}
use rdapify.Security.Ip.{is_blocked_ip, canonicalize}

-- The first bits of an address are those of the block, the last `host` bits are free.
pub record Block : Type 0 where
  pub base : ℕ
  pub host : ℕ

abbrev pub within : ℕ → Block → Bool
within bits b = bits / 2 ^ b.host == b.base / 2 ^ b.host

abbrev pub block : ℕ → ℕ → Block
block base host = record { base = base; host = host }

-- Every block that the module's documentation lists for IPv4.
abbrev pub blocked_v4 : List Block
blocked_v4 =
    block 0x7f00_0000 24
    ∷ block 0x0a00_0000 24
    ∷ block 0xac10_0000 20
    ∷ block 0xc0a8_0000 16
    ∷ block 0xa9fe_0000 16
    ∷ block 0 0
    ∷ block 0xffff_ffff 0
    ∷ block 0x6440_0000 22
    ∷ block 0xc000_0200 8
    ∷ block 0xc633_6400 8
    ∷ block 0xcb00_7100 8
    ∷ []

-- And for IPv6, where ::ffff:0:0/96 is looked up as IPv4 first.
abbrev pub blocked_v6 : List Block
blocked_v6 =
    block 1 0
    ∷ block (0xfc * 2 ^ 120) 121
    ∷ block (0xfe80 * 2 ^ 112) 118
    ∷ block 0 0
    ∷ block (0x0064_ff9b * 2 ^ 96) 32
    ∷ block (0x0064_ff9b_0001 * 2 ^ 80) 80
    ∷ []

abbrev pub mapped : Block
mapped = block (0xffff * 2 ^ 32) 32

or-false : (b : Bool) → (b || false) ≡ b
or-false true = refl
or-false false = refl

any-eq-or : (p : Block → Bool) (b : Block) (bs : List Block) → any p (b ∷ bs) ≡ (p b || any p bs)
unfolding any
any-eq-or p b bs = ground arith

pub is_blocked_ip-mapped :
    (a : Ipv6Addr) (b : Ipv4Addr)
    → to_ipv4_mapped a ≡ some b
    → is_blocked_ip (v6 a) ≡ is_blocked_ip (v4 b)
unfolding is_blocked_ip
is_blocked_ip-mapped a b e = rw (e, is_blocked_ip, canonicalize)

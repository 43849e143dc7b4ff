-- ===== src/Security/Ip/Bytes.antt =====
-- The two bit masks of ip.rs, as arithmetic on a byte.
use rdapify.Base.{
  ℕ, ◌*◌, ◌/◌, ◌<◌, ◌≡◌, refl, true, bit_and, ◌==◌, ==_iff, each_below, each_below_sound,
}

masks_fe : each_below (λ byte. bit_and byte 0xfe == byte / 2 * 2) 256 ≡ true
unfolding each_below
masks_fe = refl

masks_c0 : each_below (λ byte. bit_and byte 0xc0 == byte / 64 * 64) 256 ≡ true
unfolding each_below
masks_c0 = refl

pub mask_fe : (byte : ℕ) → byte < 256 → bit_and byte 0xfe ≡ byte / 2 * 2
mask_fe byte small =
    let equal = each_below_sound _ 256 byte masks_fe small in (==_iff _ (byte / 2 * 2)).0 equal

pub mask_c0 : (byte : ℕ) → byte < 256 → bit_and byte 0xc0 ≡ byte / 64 * 64
mask_c0 byte small =
    let equal = each_below_sound _ 256 byte masks_c0 small in (==_iff _ (byte / 64 * 64)).0 equal

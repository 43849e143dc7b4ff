-- ===== src/Base/Text/Number.antt =====
-- Decimal numbers, as `str::parse` reads them into an unsigned integer of a given width.
pub mod Printed
use Prim.Native.Nat.{ℕ, zero, suc, ◌+◌, ◌-◌, ◌*◌, ◌/◌, ◌%◌, ◌<◌}
use mathlib.Core.Path.{◌≡◌}
use mathlib.Core.Bool.{true, false, ◌&&◌}
use mathlib.Core.Option.{Option, none, some}
use mathlib.Core.List.{[], ◌∷◌, ◌++◌}
use native.Mathlib.Omega.{arith}
use rdapify.Base.Tests.{ltb, leb, ◌==◌, if◌then◌else◌}
use rdapify.Base.Text.{Text}

-- Digits to the end, below `limit` throughout.
unfoldable pub digits_from : ℕ → ℕ → Text → Option ℕ
digits_from limit n [] = some n
digits_from limit n (c ∷ s) =
    let next = n * 10 + (c - 48) in
    let rest = digits_from limit next s in
    if leb 48 c && leb c 57 then (if ltb next limit then rest else none) else none

-- An optional plus sign and at least one digit.
unfoldable pub parse_unsigned : ℕ → Text → Option ℕ
unfolding digits_from
parse_unsigned limit [] = none
parse_unsigned limit (c ∷ []) = digits_from limit 0 (c ∷ [])
parse_unsigned limit (c ∷ d ∷ s) =
    if c == 43 then digits_from limit 0 (d ∷ s) else digits_from limit 0 (c ∷ d ∷ s)

digits_from-lt :
    (limit n : ℕ) (s : Text) (v : ℕ) → n < limit → digits_from limit n s ≡ some v → v < limit
unfolding digits_from
digits_from-lt limit n [] v h e = ground arith
digits_from-lt limit n (c ∷ s) v h e = ground (arith, digits_from-lt limit (n * 10 + (c - 48)) s v)

-- A parsed number fits its width.
pub parse_unsigned-lt :
    (limit : ℕ) (s : Text) (v : ℕ) → 0 < limit → parse_unsigned limit s ≡ some v → v < limit
unfolding parse_unsigned
parse_unsigned-lt limit [] v h e = cc
parse_unsigned-lt limit (c ∷ []) v h e = digits_from-lt limit 0 (c ∷ []) v h e
parse_unsigned-lt limit (c ∷ d ∷ s) v h e =
    ground (arith, digits_from-lt limit 0 (d ∷ s) v, digits_from-lt limit 0 (c ∷ d ∷ s) v)

-- `Display` of an unsigned integer.
pub digits_of : ℕ → ℕ → Text
digits_of zero n = []
digits_of (suc fuel) n = elim (ltb n 10) [
  | true ↦ (48 + n) ∷ []
  | false ↦ digits_of fuel (n / 10) ++ ((48 + n % 10) ∷ [])
]

-- A number has at most as many digits as its successor says.
unfoldable pub print_unsigned : ℕ → Text
unfolding digits_of
print_unsigned n = digits_of (suc n) n

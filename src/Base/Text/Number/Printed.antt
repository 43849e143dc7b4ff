-- ===== src/Base/Text/Number/Printed.antt =====
-- Decimal numbers, printed and read again.
use Prim.Native.Nat.{ℕ, zero, suc, ◌+◌, ◌-◌, ◌*◌, ◌/◌, ◌%◌, ◌<◌, ◌≤◌}
use mathlib.Core.Path.{◌≡◌, refl, ap, sym, ◌∙◌}
use mathlib.Core.Logic.{inl, inr}
use mathlib.Core.Option.{some}
use mathlib.Core.List.{[], ◌∷◌, ◌++◌}
use native.Mathlib.Omega.{arith}
use rdapify.Base.Tests.{ltb, Bool-cases, ltb→lt, ltb→ge}
use rdapify.Base.Text.{Text}
use rdapify.Base.Text.Number.{digits_from, parse_unsigned, digits_of, print_unsigned}

append_assoc : (s t u : Text) → (s ++ t) ++ u ≡ s ++ (t ++ u)
append_assoc [] t u = refl
append_assoc (c ∷ s) t u = ap (λ (x : Text). c ∷ x) (append_assoc s t u)

one_digit :
    (limit n d : ℕ) (s : Text)
    → d < 10
    → n * 10 + d < limit
    → digits_from limit n ((48 + d) ∷ s) ≡ digits_from limit (n * 10 + d) s
unfolding digits_from
one_digit limit n d s small fits =
    let same : n * 10 + (48 + d - 48) ≡ n * 10 + d = omega arith in rw same (ground arith)

digits_of-read :
    (limit fuel n : ℕ) (s : Text)
    → n < fuel
    → n < limit
    → digits_from limit 0 (digits_of fuel n ++ s) ≡ digits_from limit n s
unfolding digits_of
digits_of-read limit zero n s enough fits = absurd (omega arith)
digits_of-read limit (suc fuel) n s enough fits = elim (Bool-cases (ltb n 10)) [
  | inl e ↦
      rw (e, digits_of)
        (one_digit limit 0 n s (ground arith) (omega arith)
          ∙ ap (λ m. digits_from limit m s) (let same : 0 * 10 + n ≡ n = omega arith in same))
  | inr e ↦
      let big = ltb→ge n 10 e in
      let whole : n / 10 * 10 + n % 10 ≡ n = omega arith in
      rw (e, digits_of, append_assoc (digits_of fuel (n / 10)) ((48 + n % 10) ∷ []) s)
        (digits_of-read limit fuel (n / 10) ((48 + n % 10) ∷ s) (omega arith) (omega arith)
          ∙ (one_digit limit (n / 10) (n % 10) s (omega arith) (omega arith)
              ∙ ap (λ m. digits_from limit m s) whole))
]

-- Whether a text starts with a digit.
abbrev pub StartsWithDigit : Text → Type 0
StartsWithDigit [] = ⊥
StartsWithDigit (c ∷ s) = (48 ≤ c) × (c ≤ 57)

starts-append : (s t : Text) → StartsWithDigit s → StartsWithDigit (s ++ t)
starts-append [] t h = elim h [ ]
starts-append (c ∷ s) t h = h

digits_of-starts : (fuel n : ℕ) → n < fuel → StartsWithDigit (digits_of fuel n)
unfolding digits_of
digits_of-starts zero n enough = absurd (omega arith)
digits_of-starts (suc fuel) n enough = elim (Bool-cases (ltb n 10)) [
  | inl e ↦ rw (e, digits_of) (let small = ltb→lt n 10 e in (omega arith, omega arith))
  | inr e ↦
      let big = ltb→ge n 10 e in
      rw (e, digits_of)
        (starts-append (digits_of fuel (n / 10)) _ (digits_of-starts fuel (n / 10) (omega arith)))
]

pub print_unsigned-starts : (n : ℕ) → StartsWithDigit (print_unsigned n)
unfolding print_unsigned
print_unsigned-starts n = digits_of-starts (suc n) n (omega arith)

parse_unsigned-digits :
    (limit : ℕ) (s : Text) → StartsWithDigit s → parse_unsigned limit s ≡ digits_from limit 0 s
unfolding parse_unsigned
parse_unsigned-digits limit [] h = elim h [ ]
parse_unsigned-digits limit (c ∷ []) h = refl
parse_unsigned-digits limit (c ∷ d ∷ s) (low, high) = ground arith

append_nil : (s : Text) → s ++ [] ≡ s
append_nil [] = refl
append_nil (c ∷ s) = ap (λ (x : Text). c ∷ x) (append_nil s)

pub parse_unsigned-print_unsigned :
    (limit n : ℕ) → n < limit → parse_unsigned limit (print_unsigned n) ≡ some n
unfolding print_unsigned digits_from
parse_unsigned-print_unsigned limit n fits =
    parse_unsigned-digits limit (print_unsigned n) (print_unsigned-starts n)
    ∙ (ap (digits_from limit 0) (sym (append_nil (digits_of (suc n) n)))
        ∙ digits_of-read limit (suc n) n [] (omega arith) fits)

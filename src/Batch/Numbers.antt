-- ===== src/Batch/Numbers.antt =====
-- crates/rdap-batch/src/lib.rs: how a number gets to the client and back.
use rdapify.Base.{ℕ, ◌^◌, ◌<◌, ◌≤◌, ◌≡◌, refl, some, [], ◌∷◌, arith}
use rdapify.Base.Text.{Text}
use rdapify.Base.Text.Parts.{trim_start_pair}
use rdapify.Base.Text.Number.{print_unsigned}
use rdapify.Base.Text.Number.Printed.{
  StartsWithDigit, print_unsigned-starts, parse_unsigned-print_unsigned,
}
use rdapify.Client.Queries.{parse_asn}

-- A prefix that is no digit is not there to trim.
trim_start_pair-digits :
    (a b : ℕ) (s : Text) → 58 ≤ a → StartsWithDigit s → trim_start_pair a b s ≡ s
unfolding trim_start_pair
trim_start_pair-digits a b [] letter h = refl
trim_start_pair-digits a b (c ∷ []) letter h = refl
trim_start_pair-digits a b (c ∷ d ∷ s) letter (low, high) = ground arith

-- An ASN that a batch prints for the client is read by the client as the same number.
pub parse_asn-print_unsigned : (n : ℕ) → n < 2 ^ 32 → parse_asn (print_unsigned n) ≡ some n
unfolding parse_asn
parse_asn-print_unsigned n fits =
    let digits = print_unsigned-starts n in
    rw
      (
        trim_start_pair-digits 65 83 (print_unsigned n) (omega arith) digits,
        trim_start_pair-digits 97 115 (print_unsigned n) (omega arith) digits,
      )
      (parse_unsigned-print_unsigned (2 ^ 32) n fits)

-- ===== src/Bootstrap/Data/Matches.antt =====
-- Which entry of a parsed file answers for a number or an address.
use rdapify.Base.{
  ℕ, ◌≤◌, ◌<◌, ◌≡◌, ap, subst, ◌⊎◌, inl, inr, Bool, true, false, some, List, [], ◌∷◌, ◌++◌, All,
  find, leb, ◌&&◌, arith, Bool-cases, Option-cases,
}
use rdapify.Base.Text.{Text}
use rdapify.Base.Result.{ok}
use rdapify.Bootstrap.Data.{asn, match_asn}

abbrev pub Range : Type 0
Range = (ℕ × ℕ) × Text

-- Whether a number is in a range.
abbrev pub Covers : ℕ → Range → Type 0
Covers n ((start, end), server) = (start ≤ n) × (n ≤ end)

abbrev pub Misses : ℕ → Range → Type 0
Misses n ((start, end), server) = (n < start) ⊎ (end < n)

covers : ℕ → Range → Bool
covers n e = leb e.0.0 n && leb n e.0.1

in_range : (n : ℕ) (e : Range) → covers n e ≡ true → Covers n e
unfolding covers
in_range n e h = (ground arith, ground arith)

out_of_range : (n : ℕ) (e : Range) → covers n e ≡ false → Misses n e
unfolding covers
out_of_range n e h = ground arith

find_first :
    (n : ℕ) (ranges : List Range) (e : Range)
    → find (covers n) ranges ≡ some e
    → (before : List Range) × (after : List Range) × (ranges ≡ before ++ (e ∷ after))
      × Covers n e
      × All (Misses n) before
unfolding find
find_first n [] e h = absurd (cc h)
find_first n (r ∷ ranges) e h = elim (Bool-cases (covers n r)) [
  | inl c ↦
      let same : r ≡ e = ground arith in
      ([], ranges, ap (λ x. x ∷ ranges) same, subst (Covers n) same (in_range n r c), tt)
  | inr c ↦
      let (before, after, parts, hit, misses) = find_first n ranges e (ground arith) in
      (r ∷ before, after, ap (λ rest. r ∷ rest) parts, hit, (out_of_range n r c, misses))
]

-- An ASN is answered by the first range of the file that covers it.
pub match_asn_first :
    (ranges : List Range) (n : ℕ) (server : Text)
    → match_asn (asn ranges) n ≡ ok server
    → (before : List Range) × (e : Range) × (after : List Range) × (ranges ≡ before ++ (e ∷ after))
      × (e.1 ≡ server)
      × Covers n e
      × All (Misses n) before
unfolding match_asn covers
match_asn_first ranges n server h = elim (Option-cases (find (covers n) ranges)) [
  | inl e ↦ absurd (ground arith)
  | inr (e, found) ↦
      let (before, after, parts, hit, misses) = find_first n ranges e found in
      (before, e, after, parts, ground arith, hit, misses)
]

-- ===== src/Base/Text/Parts.antt =====
-- Trimming, splitting and joining, as `str` does them.
use Prim.Native.Nat.{ℕ}
use mathlib.Core.Path.{◌≡◌, ap}
use mathlib.Core.Logic.{◌↔◌, inl, inr}
use mathlib.Core.Bool.{Bool, true, false, ◌&&◌, ◌||◌}
use mathlib.Core.Option.{Option, none, some}
use mathlib.Core.List.{List, [], ◌∷◌, ◌++◌}
use native.Mathlib.Omega.{arith}
use rdapify.Base.Tests.{leb, ◌==◌, Bool-cases, if◌then◌else◌}
use rdapify.Base.Text.{Text, text_eq, text_eq_iff, text_eq_refl, is_empty}

-- `str::trim_start_matches` and `str::trim_end_matches`, by a test on bytes.
unfoldable pub trim_start_by : (ℕ → Bool) → Text → Text
trim_start_by p [] = []
trim_start_by p (c ∷ s) = if p c then trim_start_by p s else c ∷ s

unfoldable pub trim_end_by : (ℕ → Bool) → Text → Text
unfolding is_empty
trim_end_by p [] = []
trim_end_by p (c ∷ s) = let rest = trim_end_by p s in if is_empty rest && p c then [] else c ∷ rest

unfoldable pub trim_end_matches : ℕ → Text → Text
unfolding trim_end_by
trim_end_matches c = trim_end_by (λ d. d == c)

-- `str::trim_start_matches` of a pattern of two bytes.
unfoldable pub trim_start_pair : ℕ → ℕ → Text → Text
trim_start_pair a b [] = []
trim_start_pair a b (c ∷ []) = c ∷ []
trim_start_pair a b (c ∷ d ∷ s) =
    let rest = trim_start_pair a b s in if c == a && d == b then rest else c ∷ d ∷ s

-- ASCII white space.
abbrev pub is_space : ℕ → Bool
is_space c = c == 32 || leb 9 c && leb c 13

-- `str::trim`.
unfoldable pub trim : Text → Text
unfolding trim_start_by trim_end_by
trim s = trim_end_by is_space (trim_start_by is_space s)

abbrev on_head : ℕ → List Text → List Text
on_head c [] = (c ∷ []) ∷ []
on_head c (s ∷ l) = (c ∷ s) ∷ l

-- `str::split` at one byte: never empty.
unfoldable pub split : ℕ → Text → List Text
split c [] = [] ∷ []
split c (d ∷ s) = let rest = split c s in if d == c then [] ∷ rest else on_head d rest

-- `slice::join`.
unfoldable pub join : Text → List Text → Text
join sep [] = []
join sep (s ∷ []) = s
join sep (s ∷ t ∷ l) = s ++ (sep ++ join sep (t ∷ l))

-- `str::split_once`.
unfoldable pub split_once : ℕ → Text → Option (Text × Text)
split_once c [] = none
split_once c (d ∷ s) =
    if d == c
    then some ([], s)
    else elim (split_once c s) [ none ↦ none | some (a, b) ↦ some (d ∷ a, b) ]

-- `str::strip_prefix`.
unfoldable pub strip_prefix : Text → Text → Option Text
strip_prefix [] s = some s
strip_prefix (c ∷ p) [] = none
strip_prefix (c ∷ p) (d ∷ s) = if c == d then strip_prefix p s else none

-- `str::ends_with`.
unfoldable pub ends_with : Text → Text → Bool
unfolding text_eq
ends_with [] suffix = text_eq [] suffix
ends_with (c ∷ s) suffix = if text_eq (c ∷ s) suffix then true else ends_with s suffix

-- What is left after trimming the end does not end in a trimmed byte.
abbrev pub EndsClean : (ℕ → Bool) → Text → Type 0
EndsClean p [] = Unit
EndsClean p (c ∷ []) = p c ≡ false
EndsClean p (c ∷ d ∷ s) = EndsClean p (d ∷ s)

EndsClean-cons :
    (p : ℕ → Bool) (c : ℕ) (s : Text) → is_empty s ≡ false → EndsClean p s → EndsClean p (c ∷ s)
unfolding is_empty
EndsClean-cons p c [] e h = cc
EndsClean-cons p c (d ∷ s) e h = h

EndsClean-keep :
    (p : ℕ → Bool) (c : ℕ) (s : Text)
    → EndsClean p s
    → EndsClean p (if is_empty s && p c then [] else c ∷ s)
unfolding is_empty
EndsClean-keep p c [] h = elim (Bool-cases (p c)) [ inl e ↦ rw e tt | inr e ↦ rw e e ]
EndsClean-keep p c (d ∷ s) h = h

pub trim_end_by-EndsClean : (p : ℕ → Bool) (s : Text) → EndsClean p (trim_end_by p s)
unfolding trim_end_by
trim_end_by-EndsClean p [] = tt
trim_end_by-EndsClean p (c ∷ s) = EndsClean-keep p c (trim_end_by p s) (trim_end_by-EndsClean p s)

ends_with_sound :
    (s suffix : Text) → ends_with s suffix ≡ true → (prefix : Text) × (s ≡ prefix ++ suffix)
unfolding ends_with
ends_with_sound [] suffix h = ([], (text_eq_iff [] suffix).0 h)
ends_with_sound (c ∷ s) suffix h = elim (Bool-cases (text_eq (c ∷ s) suffix)) [
  | inl e ↦ ([], (text_eq_iff (c ∷ s) suffix).0 e)
  | inr e ↦
      let (prefix, eq) = ends_with_sound s suffix (ground arith) in (c ∷ prefix, ap (◌∷◌ c) eq)
]

ends_with_self : (s : Text) → ends_with s s ≡ true
unfolding ends_with
ends_with_self [] = text_eq_refl []
ends_with_self (c ∷ s) = ground (arith, text_eq_refl (c ∷ s))

ends_with-append : (prefix suffix : Text) → ends_with (prefix ++ suffix) suffix ≡ true
unfolding ends_with
ends_with-append [] suffix = ends_with_self suffix
ends_with-append (c ∷ prefix) suffix = ground (arith, ends_with-append prefix suffix)

-- `ends_with` finds exactly the suffixes.
pub ends_with_iff :
    (s suffix : Text) → (ends_with s suffix ≡ true) ↔ ((prefix : Text) × (s ≡ prefix ++ suffix))
ends_with_iff s suffix =
    (ends_with_sound s suffix, λ (prefix, e). rw e (ends_with-append prefix suffix))

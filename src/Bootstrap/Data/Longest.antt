-- ===== src/Bootstrap/Data/Longest.antt =====
-- `longest_suffix`, beside the rule of RFC 7484 on which key of the index answers for a name.
use mathlib.Core.List.{append-nil}
use rdapify.Base.{
  ◌≡◌, refl, ap, sym, subst, false, Option, none, some, List, [], ◌∷◌, ◌++◌, All, Option-cases, inl,
  inr,
}
use rdapify.Base.Text.{Text, text, is_empty, to_lowercase}
use rdapify.Base.Text.Parts.{trim_end_matches, split, join}
use rdapify.Base.Text.Keyed.{get}
use rdapify.Bootstrap.Data.{probe, longest_suffix}

-- The name without the dots at its end, in lower case.
abbrev pub name_of : Text → Text
name_of domain = to_lowercase (trim_end_matches 46 domain)

-- The suffixes of `front ++ back` that have more labels than `back`, the longest first.
abbrev pub longer : List Text → List Text → List (List Text)
longer [] back = []
longer (label ∷ front) back = (label ∷ front ++ back) ∷ longer front back

module _ {V : Type 0} (index : List (Text × V)) where
  abbrev pub Misses : List Text → Type 0
  Misses labels = get (join (text ".") labels) index ≡ none

  -- Either some suffix is a key and no longer suffix is one, or no suffix is a key at all.
  abbrev pub IsLongest : List Text → Option V → Type 0
  IsLongest labels none = All Misses (longer labels [])
  IsLongest labels (some v) =
      (front : List Text) × (label : Text) × (back : List Text) × (labels ≡ front ++ (label ∷ back))
      × (get (join (text ".") (label ∷ back)) index ≡ some v)
      × All Misses (longer front (label ∷ back))

  add_miss :
      (label : Text) (labels : List Text) (o : Option V)
      → Misses (label ∷ labels)
      → IsLongest labels o
      → IsLongest (label ∷ labels) o
  add_miss label labels none m h =
      (subst (λ rest. Misses (label ∷ rest)) (sym (append-nil labels)) m, h)
  add_miss label labels (some v) m (front, next, back, parts, hit, misses) = (
    label ∷ front,
    next,
    back,
    ap (λ rest. label ∷ rest) parts,
    hit,
    (subst (λ rest. Misses (label ∷ rest)) parts m, misses),
  )

  probe-IsLongest : (labels : List Text) → IsLongest labels (probe index labels)
  unfolding probe
  probe-IsLongest [] = tt
  probe-IsLongest (label ∷ labels) =
      elim (Option-cases (get (join (text ".") (label ∷ labels)) index)) [
        | inr (v, e) ↦ rw (e, probe) ([], label, labels, refl, e, tt)
        | inl e ↦
            rw (e, probe) (add_miss label labels (probe index labels) e (probe-IsLongest labels))
      ]

  -- The answer for a name is the value of its longest suffix of labels that is a key, and there is no
  -- answer exactly where no suffix is a key.
  pub longest_suffix-IsLongest :
      (domain : Text)
      → is_empty (name_of domain) ≡ false
      → IsLongest (split 46 (name_of domain)) (longest_suffix index domain)
  unfolding longest_suffix
  longest_suffix-IsLongest domain h = rw h (probe-IsLongest (split 46 (name_of domain)))

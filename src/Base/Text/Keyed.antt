-- ===== src/Base/Text/Keyed.antt =====
-- Maps with text keys: an association list, where the first entry of a key counts.
use mathlib.Core.Path.{◌≡◌, refl, subst, sym}
use mathlib.Core.Logic.{inl, inr}
use mathlib.Core.Bool.{false}
use mathlib.Core.Option.{Option, none, some}
use mathlib.Core.List.{List, [], ◌∷◌}
use native.Mathlib.Omega.{arith}
use rdapify.Base.Lists.{All}
use rdapify.Base.Tests.{if◌then◌else◌, if-both, Bool-cases}
use rdapify.Base.Text.{Text, text_eq, text_eq_iff, text_eq_refl}

module _ {V : Type 0} where
  unfoldable pub get : Text → List (Text × V) → Option V
  get k [] = none
  get k ((j, v) ∷ m) = if text_eq j k then some v else get k m

  -- The old entry of the key, or a new one at the end.
  unfoldable pub put : Text → V → List (Text × V) → List (Text × V)
  put k v [] = (k, v) ∷ []
  put k v ((j, u) ∷ m) = if text_eq j k then (k, v) ∷ m else (j, u) ∷ put k v m

  unfoldable pub remove : Text → List (Text × V) → List (Text × V)
  remove k [] = []
  remove k ((j, v) ∷ m) = let rest = remove k m in if text_eq j k then rest else (j, v) ∷ rest

  pub get-put_same : (k : Text) (v : V) (m : List (Text × V)) → get k (put k v m) ≡ some v
  unfolding get put
  get-put_same k v [] = ground (arith, text_eq_refl k)
  get-put_same k v ((j, u) ∷ m) = ground (arith, text_eq_refl k, get-put_same k v m)

  pub get-put_other :
      (k l : Text) (v : V) (m : List (Text × V)) → text_eq k l ≡ false → get l (put k v m) ≡ get l m
  unfolding get put
  get-put_other k l v [] h = ground arith
  get-put_other k l v ((j, u) ∷ m) h = elim (Bool-cases (text_eq j k)) [
    | inl e ↦
        let apart = subst (λ (x : Text). text_eq x l ≡ false) (sym ((text_eq_iff j k).0 e)) h in
        ground arith
    | inr e ↦ ground (arith, get-put_other k l v m h)
  ]

  pub get-remove_same : (k : Text) (m : List (Text × V)) → get k (remove k m) ≡ none
  unfolding get remove
  get-remove_same k [] = refl
  get-remove_same k ((j, u) ∷ m) = ground (arith, get-remove_same k m)

  pub get-remove_other :
      (k l : Text) (m : List (Text × V)) → text_eq k l ≡ false → get l (remove k m) ≡ get l m
  unfolding get remove
  get-remove_other k l [] h = refl
  get-remove_other k l ((j, u) ∷ m) h = elim (Bool-cases (text_eq j k)) [
    | inl e ↦
        let apart = subst (λ (x : Text). text_eq x l ≡ false) (sym ((text_eq_iff j k).0 e)) h in
        ground (arith, get-remove_other k l m h)
    | inr e ↦ ground (arith, get-remove_other k l m h)
  ]

  -- What every entry has, the entry found has.
  pub get-All :
      (P : Text × V → Type 0) (k : Text) (v : V) (m : List (Text × V))
      → All P m
      → get k m ≡ some v
      → P (k, v)
  unfolding get
  get-All P k v [] h e = cc
  get-All P k v ((j, u) ∷ m) h e = elim (Bool-cases (text_eq j k)) [
    | inl same ↦
        let ek : j ≡ k = (text_eq_iff j k).0 same in
        let eu : u ≡ v = ground arith in
        subst (λ (x : V). P (k, x)) eu (subst (λ (x : Text). P (x, u)) ek h.0)
    | inr apart ↦ get-All P k v m h.1 (ground arith)
  ]

  pub All-put :
      (P : Text × V → Type 0) (k : Text) (v : V) (m : List (Text × V))
      → P (k, v)
      → All P m
      → All P (put k v m)
  unfolding put
  All-put P k v [] new h = (new, tt)
  All-put P k v ((j, u) ∷ m) new h =
      if-both (λ (l : List (Text × V)). All P l) (text_eq j k) ((k, v) ∷ m) ((j, u) ∷ put k v m)
        (λ e. (new, h.1)) (λ e. (h.0, All-put P k v m new h.1))

  pub All-remove :
      (P : Text × V → Type 0) (k : Text) (m : List (Text × V)) → All P m → All P (remove k m)
  unfolding remove
  All-remove P k [] h = tt
  All-remove P k ((j, u) ∷ m) h =
      if-both (λ (l : List (Text × V)). All P l) (text_eq j k) (remove k m) ((j, u) ∷ remove k m)
        (λ e. All-remove P k m h.1) (λ e. (h.0, All-remove P k m h.1))

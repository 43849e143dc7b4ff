-- ===== src/Base/Find.antt =====
-- `Iterator::find` and `Iterator::any`: which element they see.
use mathlib.Core.Path.{◌≡◌, refl, ap, subst}
use mathlib.Core.Logic.{◌↔◌, inl, inr}
use mathlib.Core.Bool.{Bool, true, false}
use mathlib.Core.Option.{none, some}
use mathlib.Core.List.{List, [], ◌∷◌, ◌++◌}
use native.Mathlib.Omega.{arith}
use rdapify.Base.Tests.{Bool-cases}
use rdapify.Base.Lists.{All, find, any}

module _ {A : Type 0} (p : A → Bool) where
  abbrev pub Fails : A → Type 0
  Fails x = p x ≡ false

  -- The first element that passes.
  abbrev pub IsFirst : List A → A → Type 0
  IsFirst xs x =
      (before : List A) × (after : List A) × (xs ≡ before ++ (x ∷ after))
      × (p x ≡ true)
      × All Fails before

  find-IsFirst : (xs : List A) (x : A) → find p xs ≡ some x → IsFirst xs x
  unfolding find
  find-IsFirst [] x e = cc
  find-IsFirst (y ∷ ys) x e = elim (Bool-cases (p y)) [
    | inl c ↦
        let same : y ≡ x = ground arith in
        ([], ys, ap (λ z. z ∷ ys) same, subst (λ (z : A). p z ≡ true) same c, tt)
    | inr c ↦
        let (before, after, parts, passes, fail) = find-IsFirst ys x (ground arith) in
        (y ∷ before, after, ap (λ rest. y ∷ rest) parts, passes, (c, fail))
  ]

  find_skips :
      (before after : List A) (x : A)
      → p x ≡ true
      → All Fails before
      → find p (before ++ (x ∷ after)) ≡ some x
  unfolding find
  find_skips [] after x passes fail = rw passes refl
  find_skips (y ∷ before) after x passes fail =
      rw (fail.0) (find_skips before after x passes fail.1)

  pub find_iff : (xs : List A) (x : A) → (find p xs ≡ some x) ↔ IsFirst xs x
  find_iff xs x = (
    find-IsFirst xs x,
    λ (before, after, parts, passes, fail). rw parts (find_skips before after x passes fail),
  )

  pub find-none_iff : (xs : List A) → (find p xs ≡ none) ↔ All Fails xs
  unfolding find
  find-none_iff [] = (λ e. tt, λ h. refl)
  find-none_iff (y ∷ ys) =
      let (down, up) = find-none_iff ys in
      elim (Bool-cases (p y)) [
        | inl c ↦ (λ e. absurd (ground arith), λ h. absurd (ground arith))
        | inr c ↦ (λ e. (c, down (ground arith)), λ h. rw c (up h.1))
      ]

  pub any-false_iff : (xs : List A) → (any p xs ≡ false) ↔ All Fails xs
  unfolding any
  any-false_iff [] = (λ e. tt, λ h. refl)
  any-false_iff (y ∷ ys) =
      let (down, up) = any-false_iff ys in
      elim (Bool-cases (p y)) [
        | inl c ↦ (λ e. absurd (ground arith), λ h. absurd (ground arith))
        | inr c ↦ (λ e. (c, down (ground arith)), λ h. rw c (up h.1))
      ]

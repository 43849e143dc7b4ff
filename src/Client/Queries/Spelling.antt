-- ===== src/Client/Queries/Spelling.antt =====
-- crates/rdapify-client/src/lib.rs: how a name may be spelt.
use rdapify.Base.{
  ℕ, ◌≡◌, refl, ap, sym, ◌∙◌, Bool, Option, ◌&&◌, [], ◌∷◌, arith, ◌==◌, Bool-cases, inl, inr,
}
use rdapify.Base.Text.{Text, lower, to_lowercase, is_empty}
use rdapify.Base.Text.Parts.{trim, trim_start_by, trim_end_by, trim_end_matches, is_space}
use rdapify.Client.{Parts, State, World, normalise_domain}
use rdapify.Client.Queries.{domain, nameserver}

lower_space : (c : ℕ) → is_space (lower c) ≡ is_space c
unfolding lower
lower_space c = ground arith

lower_dot : (c : ℕ) → (lower c == 46) ≡ (c == 46)
unfolding lower
lower_dot c = ground arith

lower-lower : (c : ℕ) → lower (lower c) ≡ lower c
unfolding lower
lower-lower c = ground arith

to_lowercase_twice : (s : Text) → to_lowercase (to_lowercase s) ≡ to_lowercase s
unfolding to_lowercase
to_lowercase_twice [] = refl
to_lowercase_twice (c ∷ s) = rw (lower-lower c, to_lowercase_twice s) refl

is_empty-to_lowercase : (s : Text) → is_empty (to_lowercase s) ≡ is_empty s
unfolding to_lowercase is_empty
is_empty-to_lowercase [] = refl
is_empty-to_lowercase (c ∷ s) = refl

-- Trimming by a test that does not see case.
module _ (p : ℕ → Bool) (blind : (c : ℕ) → p (lower c) ≡ p c) where
  trim_start_by-to_lowercase :
      (s : Text) → trim_start_by p (to_lowercase s) ≡ to_lowercase (trim_start_by p s)
  unfolding to_lowercase trim_start_by
  trim_start_by-to_lowercase [] = refl
  trim_start_by-to_lowercase (c ∷ s) = elim (Bool-cases (p c)) [
    | inl e ↦ rw (blind c, e) (trim_start_by-to_lowercase s)
    | inr e ↦ rw (blind c, e) refl
  ]

  trim_end_by-to_lowercase :
      (s : Text) → trim_end_by p (to_lowercase s) ≡ to_lowercase (trim_end_by p s)
  unfolding to_lowercase trim_end_by
  trim_end_by-to_lowercase [] = refl
  trim_end_by-to_lowercase (c ∷ s) =
      rw (trim_end_by-to_lowercase s, is_empty-to_lowercase (trim_end_by p s), blind c)
        (elim (Bool-cases (is_empty (trim_end_by p s) && p c)) [
          | inl e ↦ rw e refl
          | inr e ↦ rw e refl
        ])

-- The name that a query is about.
abbrev name_of : Text → Text
name_of typed = to_lowercase (trim_end_matches 46 (trim typed))

name_of-to_lowercase : (typed : Text) → name_of (to_lowercase typed) ≡ name_of typed
unfolding trim trim_end_matches
name_of-to_lowercase typed =
    rw
      (
        trim_start_by-to_lowercase is_space lower_space typed,
        trim_end_by-to_lowercase is_space lower_space (trim_start_by is_space typed),
        trim_end_by-to_lowercase (λ c. c == 46) lower_dot
            (trim_end_by is_space (trim_start_by is_space typed)),
      )
      (to_lowercase_twice
        (trim_end_by (λ c. c == 46) (trim_end_by is_space (trim_start_by is_space typed))))

normalise_domain_ignores_case :
    (domain_to_ascii : Text → Option Text) (typed other : Text)
    → to_lowercase typed ≡ to_lowercase other
    → normalise_domain domain_to_ascii typed ≡ normalise_domain domain_to_ascii other
unfolding normalise_domain
normalise_domain_ignores_case domain_to_ascii typed other same =
    let names : name_of typed ≡ name_of other =
      sym (name_of-to_lowercase typed) ∙ (ap name_of same ∙ name_of-to_lowercase other) in
    rw names refl

-- Names that differ in case alone are one name: a query for a domain or a nameserver does the same, down
-- to the requests that it makes and the entry of the cache that it uses.
pub domain_ignores_case :
    (w : World) (p : Parts) (typed other : Text) (s : State)
    → to_lowercase typed ≡ to_lowercase other
    → (domain w p typed s ≡ domain w p other s) × (nameserver w p typed s ≡ nameserver w p other s)
unfolding domain nameserver
domain_ignores_case w p typed other s same =
    let named_alike = normalise_domain_ignores_case w.domain_to_ascii typed other same in
    (rw named_alike refl, rw named_alike refl)

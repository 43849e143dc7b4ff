-- ===== src/Core/Normalizer/Registrar.antt =====
-- crates/rdap-core/src/normalizer.rs: the registrar that `extract_registrar` takes from the entities.
use rdapify.Base.{
  ◌≡◌, ◌↔◌, ◌⊎◌, refl, true, false, Option, none, some, List, [], ◌∷◌, ◌++◌, inl, inr, arith, All,
  find, any, Option-cases, Bool-cases, All-mono, sym, subst,
}
use rdapify.Base.Find.{find_iff, find-none_iff}
use rdapify.Types.Common.{RdapRole, registrar, RdapEntity, own}
use rdapify.Types.Response.{RegistrarSummary}
use rdapify.Core.Normalizer.{is_registrar, has_registrar_role, summary_of, extract_registrar}

-- Whether a role is in a list.
abbrev pub HasRole : RdapRole → List RdapRole → Type 0
HasRole role [] = ⊥
HasRole role (r ∷ roles) = (r ≡ role) ⊎ HasRole role roles

abbrev pub IsRegistrar : RdapEntity → Type 0
IsRegistrar e = HasRole registrar (own e).roles

-- What `extract_registrar` may answer.
abbrev pub Chosen : List RdapEntity → Option RegistrarSummary → Type 0
Chosen entities none = All (λ (e : RdapEntity). ¬ IsRegistrar e) entities
Chosen entities (some summary) =
    (before : List RdapEntity) × (e : RdapEntity) × (after : List RdapEntity) × (entities
      ≡ before ++ (e ∷ after))
    × IsRegistrar e
    × All (λ (f : RdapEntity). ¬ IsRegistrar f) before
    × (summary ≡ summary_of e)

is_registrar_sound : (r : RdapRole) → is_registrar r ≡ true → r ≡ registrar
is_registrar_sound registrar h = refl
is_registrar_sound _ h = cc

any-HasRole : (roles : List RdapRole) → any is_registrar roles ≡ true → HasRole registrar roles
unfolding any
any-HasRole [] h = cc
any-HasRole (r ∷ roles) h = elim (Bool-cases (is_registrar r)) [
  | inl e ↦ inl (is_registrar_sound r e)
  | inr e ↦ inr (any-HasRole roles (ground arith))
]

any-not-HasRole :
    (roles : List RdapRole) → any is_registrar roles ≡ false → ¬ HasRole registrar roles
unfolding any
any-not-HasRole [] h = λ f. f
any-not-HasRole (r ∷ roles) h = elim (Bool-cases (is_registrar r)) [
  | inl e ↦ absurd (ground arith)
  | inr e ↦ λ has. elim has [
    | inl same ↦ absurd (let yes : is_registrar r ≡ true = rw same refl in ground arith)
    | inr rest ↦ any-not-HasRole roles (ground arith) rest
  ]
]

-- The two readings of the test on an entity.
test_sound : (e : RdapEntity) → has_registrar_role e ≡ true → IsRegistrar e
test_sound e h = any-HasRole (own e).roles h

test_complete : (e : RdapEntity) → IsRegistrar e → has_registrar_role e ≡ true
test_complete e has = elim (Bool-cases (any is_registrar (own e).roles)) [
  | inl sure ↦ sure
  | inr missing ↦ absurd (any-not-HasRole (own e).roles missing has)
]

test_fails : (e : RdapEntity) → (has_registrar_role e ≡ false) ↔ (¬ IsRegistrar e)
test_fails e = (
  any-not-HasRole (own e).roles,
  λ hasnt. elim (Bool-cases (any is_registrar (own e).roles)) [
    | inl sure ↦ absurd (hasnt (any-HasRole (own e).roles sure))
    | inr missing ↦ missing
  ],
)

none-IsRegistrar :
    (entities : List RdapEntity)
    → All (λ (e : RdapEntity). has_registrar_role e ≡ false) entities
      ↔ All (λ (e : RdapEntity). ¬ IsRegistrar e) entities
none-IsRegistrar entities = (
  All-mono _ _ entities (λ e h. (test_fails e).0 h),
  All-mono _ _ entities (λ e h. (test_fails e).1 h),
)

find-Chosen :
    (entities : List RdapEntity) (e : RdapEntity)
    → find has_registrar_role entities ≡ some e
    → Chosen entities (some (summary_of e))
find-Chosen entities e h =
    let (before, after, parts, passes, fail) = (find_iff has_registrar_role entities e).0 h in
    (before, e, after, parts, test_sound e passes, (none-IsRegistrar before).0 fail, refl)

-- The registrar of a domain is the summary of the first of its entities with the role of a registrar,
-- and there is none exactly when no entity has that role.
pub extract_registrar_iff :
    (entities : List RdapEntity) (found : Option RegistrarSummary)
    → (extract_registrar entities ≡ found) ↔ Chosen entities found
unfolding extract_registrar
extract_registrar_iff entities none =
    let (down, up) = find-none_iff has_registrar_role entities in
    let (here, back) = none-IsRegistrar entities in
    (λ h. here (down (ground arith)), λ all. rw (up (back all)) refl)
extract_registrar_iff entities (some summary) = (
  λ h. elim (Option-cases (find has_registrar_role entities)) [
    | inl e ↦ absurd (ground arith)
    | inr (e, found) ↦
        let same : summary_of e ≡ summary = ground arith in
        subst (λ (s : RegistrarSummary). Chosen entities (some s)) same
          (find-Chosen entities e found)
  ],
  λ (before, e, after, parts, is, none_before, same).
      let first =
        (find_iff has_registrar_role entities e).1
          (before, after, parts, test_complete e is, (none-IsRegistrar before).1 none_before) in
      rw (first, sym same) refl,
)

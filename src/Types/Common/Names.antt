-- ===== src/Types/Common/Names.antt =====
-- crates/rdap-types/src/common.rs: the names of `RdapStatus` and `RdapRole` on the wire.
use rdapify.Base.{
  ◌≡◌, refl, some, List, arith, All, Option-cases, inl, inr, Bool, true, false, [], ◌∷◌,
  if◌then◌else◌, Bool-cases,
}
use rdapify.Base.Text.{Text, text_eq, text_eq_iff}
use rdapify.Base.Text.Keyed.{get, get-All}
use rdapify.Core.Validation.{string}
use rdapify.Types.Common.{
  RdapStatus, RdapRole, status_names, role_names, serialize_status, serialize_role,
  deserialize_status, deserialize_role, deserialize_enum, variant_of,
}

-- Whether each variant of a table is written as its name.
written_as_named : {A : Type 0} → (A → Text) → List (Text × A) → Bool
written_as_named write [] = true
written_as_named write ((t, a) ∷ names) =
    if text_eq (write a) t then written_as_named write names else false

written_as_named-All :
    {A : Type 0} (write : A → Text) (names : List (Text × A))
    → written_as_named write names ≡ true
    → All (λ (e : Text × A). write e.1 ≡ e.0) names
unfolding written_as_named
written_as_named-All write [] h = tt
written_as_named-All write ((t, a) ∷ names) h = elim (Bool-cases (text_eq (write a) t)) [
  | inl same ↦ ((text_eq_iff (write a) t).0 same, written_as_named-All write names (ground arith))
  | inr apart ↦ absurd (ground arith)
]

-- Any string is read, and what is read is written back as the same string.
enum_names :
    {A : Type 0} (names : List (Text × A)) (untagged : Text → A) (write : A → Text) (t : Text)
    → written_as_named write names ≡ true
    → write (untagged t) ≡ t
    → (a : A) × (deserialize_enum names untagged (string t) ≡ some a) × (write a ≡ t)
unfolding deserialize_enum variant_of
enum_names names untagged write t named kept = elim (Option-cases (get t names)) [
  | inl e ↦ (untagged t, rw (e, deserialize_enum) refl, kept)
  | inr (a, e) ↦ (
    a,
    rw (e, deserialize_enum) refl,
    get-All (λ (x : _ × _). write x.1 ≡ x.0) t a names (written_as_named-All write names named) e,
  )
]

-- Every status string is read as some status, a known one or `Other`, and that status is written back
-- as the same string.
pub serialize_status-deserialize_status :
    (t : Text)
    → (s : RdapStatus) × (deserialize_status (string t) ≡ some s) × (serialize_status s ≡ t)
unfolding deserialize_status serialize_status written_as_named text_eq
serialize_status-deserialize_status t =
    enum_names status_names RdapStatus.other serialize_status t refl refl

-- Every role string is read as some role, a known one or `Other`, and that role is written back as the
-- same string.
pub serialize_role-deserialize_role :
    (t : Text) → (r : RdapRole) × (deserialize_role (string t) ≡ some r) × (serialize_role r ≡ t)
unfolding deserialize_role serialize_role written_as_named text_eq
serialize_role-deserialize_role t = enum_names role_names RdapRole.other serialize_role t refl refl

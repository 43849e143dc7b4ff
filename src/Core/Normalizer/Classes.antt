-- ===== src/Core/Normalizer/Classes.antt =====
-- crates/rdap-core/src/normalizer.rs: what each of the five methods makes of the class of an object.
use rdapify.Base.{◌≡◌, ◌≢◌, refl, Bool, Option, none, some, inl, inr, arith, subst, Bool-cases, ℕ}
use rdapify.Base.Text.{Text, text, text_eq, text_eq_iff}
use rdapify.Base.Result.{Result-cases, Result, ok, err, ◌>>=◌, ◌>>◌}
use rdapify.Core.Validation.{Value, Fields, null, boolean, number, string, array, object}
use rdapify.Types.Error.{RdapError, parse_error, missing_object_class, unknown_object_class}
use rdapify.Types.Json.{get_field}
use rdapify.Core.Normalizer.{
  require_object, check_object_class, string_field, domain_of, domain, ip_of, ip, asn_of, asn,
  nameserver_of, nameserver, entity_of, entity,
}

abbrev pub class_key : Text
class_key = text "objectClassName"

-- What may come of a value that is to be of a class: the object built from it, or one of three errors.
pub data Outcome {A : Type 0} (build : Fields → A) (expected : Text)
    : Value → Result RdapError A → Type 0 where
  built :
      (obj : Fields)
      → get_field class_key obj ≡ some (string expected)
      → Outcome build expected (object obj) (ok (build obj))
  other_class :
      (obj : Fields) (class : Text)
      → get_field class_key obj ≡ some (string class)
      → class ≢ expected
      → Outcome build expected (object obj) (err (unknown_object_class class))
  no_class :
      (obj : Fields)
      → ((class : Text) → get_field class_key obj ≢ some (string class))
      → Outcome build expected (object obj) (err missing_object_class)
  no_object :
      (raw : Value)
      → ((obj : Fields) → raw ≢ object obj)
      → Outcome build expected raw (err parse_error)

abbrev gated : {A : Type 0} → (Fields → A) → Text → Value → Result RdapError A
gated build expected raw = do
  obj ← require_object raw
  check_object_class obj expected
  ok (build obj)

module _ {A : Type 0} (build : Fields → A) (expected : Text) where
  -- By the field of the class.
  of_field :
      (obj : Fields) (found : Option Value)
      → get_field class_key obj ≡ found
      → Outcome build expected (object obj) (gated build expected (object obj))
  unfolding require_object check_object_class string_field
  of_field obj none e =
      rw (e, check_object_class, string_field) (Outcome.no_class obj (λ class h. cc))
  of_field obj (some (string class)) e = elim (Bool-cases (text_eq class expected)) [
    | inl same ↦
        let there =
          subst (λ (c : Text). get_field class_key obj ≡ some (string c))
            ((text_eq_iff class expected).0 same) e in
        rw (e, check_object_class, string_field) (rw same (Outcome.built obj there))
    | inr apart ↦
        rw (e, check_object_class, string_field)
          (rw apart (
            Outcome.other_class obj class e
              (λ eq. absurd (ground (arith, (text_eq_iff class expected).1 eq)))))
  ]
  of_field obj (some null) e =
      rw (e, check_object_class, string_field) (Outcome.no_class obj (λ class h. cc))
  of_field obj (some (boolean b)) e =
      rw (e, check_object_class, string_field) (Outcome.no_class obj (λ class h. cc))
  of_field obj (some (number n)) e =
      rw (e, check_object_class, string_field) (Outcome.no_class obj (λ class h. cc))
  of_field obj (some (array items)) e =
      rw (e, check_object_class, string_field) (Outcome.no_class obj (λ class h. cc))
  of_field obj (some (object fields)) e =
      rw (e, check_object_class, string_field) (Outcome.no_class obj (λ class h. cc))

  gated-Outcome : (raw : Value) → Outcome build expected raw (gated build expected raw)
  unfolding require_object
  gated-Outcome (object obj) = of_field obj (get_field class_key obj) refl
  gated-Outcome null = Outcome.no_object null (λ obj. cc)
  gated-Outcome (boolean b) = Outcome.no_object (boolean b) (λ obj. cc)
  gated-Outcome (number n) = Outcome.no_object (number n) (λ obj. cc)
  gated-Outcome (string s) = Outcome.no_object (string s) (λ obj. cc)
  gated-Outcome (array items) = Outcome.no_object (array items) (λ obj. cc)

-- A response was built from an object.
pub gated_ok :
    {A : Type 0} (build : Fields → A) (expected : Text) (raw : Value) (response : A)
    → gated build expected raw ≡ ok response
    → (obj : Fields) × (response ≡ build obj)
unfolding require_object
gated_ok build expected (object obj) response h =
    elim (Result-cases (check_object_class obj expected)) [
      | inl (_, e) ↦ (obj, ground arith)
      | inr (x, e) ↦ absurd (ground arith)
    ]
gated_ok build expected null response h = cc
gated_ok build expected (boolean b) response h = cc
gated_ok build expected (number n) response h = cc
gated_ok build expected (string s) response h = cc
gated_ok build expected (array items) response h = cc

-- Each of the five methods answers with the response built from the fields exactly when the document is
-- an object whose `objectClassName` is the string of its own class; an object of another class gives
-- `UnknownObjectClass` with that class, one without a class string, because the field is
-- absent or is no string, `MissingObjectClass`, and a document that is no object a parse error.
pub normalize-Outcome :
    (now source query : Text) (autnum : ℕ) (cached : Bool) (raw : Value)
    → Outcome
        (domain_of now source cached query)
        (text "domain")
        raw
        (domain now source cached query raw)
      × Outcome
          (ip_of now source cached query)
          (text "ip network")
          raw
          (ip now source cached query raw)
      × Outcome
          (asn_of now source cached autnum)
          (text "autnum")
          raw
          (asn now source cached autnum raw)
      × Outcome
          (nameserver_of now source cached query)
          (text "nameserver")
          raw
          (nameserver now source cached query raw)
      × Outcome
          (entity_of now source cached query)
          (text "entity")
          raw
          (entity now source cached query raw)
unfolding domain ip asn nameserver entity
normalize-Outcome now source query autnum cached raw = (
  gated-Outcome (domain_of now source cached query) (text "domain") raw,
  gated-Outcome (ip_of now source cached query) (text "ip network") raw,
  gated-Outcome (asn_of now source cached autnum) (text "autnum") raw,
  gated-Outcome (nameserver_of now source cached query) (text "nameserver") raw,
  gated-Outcome (entity_of now source cached query) (text "entity") raw,
)

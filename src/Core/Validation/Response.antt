-- ===== src/Core/Validation/Response.antt =====
-- crates/rdap-core/src/validation/rdap.rs and mod.rs: what a response that passes the gate is like.
use rdapify.Base.{
  ℕ, ◌≤◌, ◌≡◌, ◌↔◌, Option, some, refl, ap, subst, inl, inr, arith, length, ltb, Option-cases,
  Bool-cases,
}
use rdapify.Base.Text.{Text, text}
use rdapify.Base.Result.{Result, ok, err, Result-cases, ◌>>=◌}
use rdapify.Core.Validation.{
  RdapValidationLimits, ValidationError, Value, Fields, null, boolean, number, string, array,
  object, array_len, check_len, json_too_large, invalid_structure, validate_json_structure,
  validate_rdap_object, validate_rdap_response, after_structure,
}
use rdapify.Core.Validation.Structure.{Fits, validate_json_structure_iff}

-- The limits on the well-known arrays of the top object.
pub record FieldsFit (limits : RdapValidationLimits) (obj : Fields) : Type 0 where
  pub entities : array_len obj (text "entities") ≤ limits.max_entities
  pub links : array_len obj (text "links") ≤ limits.max_links
  pub events : array_len obj (text "events") ≤ limits.max_events
  pub remarks : array_len obj (text "remarks") ≤ limits.max_array_length
  pub notices : array_len obj (text "notices") ≤ limits.max_array_length
  pub nameservers : array_len obj (text "nameservers") ≤ limits.max_array_length

abbrev pub TopFits : RdapValidationLimits → Value → Type 0
TopFits limits (object obj) = FieldsFit limits obj
TopFits limits null = Unit
TopFits limits (boolean b) = Unit
TopFits limits (number n) = Unit
TopFits limits (string s) = Unit
TopFits limits (array items) = Unit

check_len_iff :
    (len limit : ℕ) (e : ValidationError) → (check_len len limit e ≡ ok tt) ↔ (len ≤ limit)
check_len_iff len limit e = (λ h. ground arith, λ h. ground arith)

validate_rdap_object_iff :
    (limits : RdapValidationLimits) (value : Value)
    → (validate_rdap_object limits value ≡ ok tt) ↔ TopFits limits value
unfolding validate_rdap_object
validate_rdap_object_iff limits (object obj) = (λ h. ground arith, λ h. ground arith)
validate_rdap_object_iff limits _ = (λ h. tt, λ h. refl)

-- What the gate promises about an accepted value.
pub record Passes (limits : RdapValidationLimits) (value : Value) : Type 0 where
  pub structure : Fits limits value 0
  pub top : TopFits limits value

after_structure_lem :
    (limits : RdapValidationLimits) (parsed value : Value) (r : Result ValidationError (Unit {0}))
    → (r ≡ ok tt) ↔ Fits limits parsed 0
    → (after_structure limits parsed (some r) ≡ some (ok value))
      ↔ ((parsed ≡ value) × Passes limits parsed)
after_structure_lem limits parsed value (err e) (down, up) =
    (λ h. absurd (ground arith), λ p. absurd (ground (arith, up p.1.structure)))
after_structure_lem limits parsed value (ok _) (down, up) =
    let (sound, complete) = validate_rdap_object_iff limits parsed in
    elim (Result-cases (validate_rdap_object limits parsed)) [
      | inl (_, e) ↦
          rw e (
            λ h. (ground arith, record { structure = down refl; top = sound e }),
            λ p. ground arith,
          )
      | inr (x, e) ↦
          rw e (λ h. absurd (ground arith), λ p. absurd (ground (arith, complete p.1.top)))
    ]

-- The answer of the gate after the structural check, which is always there.
after_structure_total :
    (limits : RdapValidationLimits) (parsed : Value)
    → (r : Result ValidationError Value) × (after_structure limits parsed
          (validate_json_structure limits parsed)
        ≡ some r)
      × ((value : Value) → (r ≡ ok value) ↔ ((parsed ≡ value) × Passes limits parsed))
after_structure_total limits parsed =
    let (r, eq, both) = validate_json_structure_iff limits parsed in rw eq (answer r both)
  where
    answer :
        (r : Result ValidationError (Unit {0}))
        → (r ≡ ok tt) ↔ Fits limits parsed 0
        → (s : Result ValidationError Value) × (after_structure limits parsed (some r) ≡ some s)
          × ((value : Value) → (s ≡ ok value) ↔ ((parsed ≡ value) × Passes limits parsed))
    answer (err e) both = (err e, refl, λ value. (λ h. cc, λ p. (cc (both.1 p.1.structure))))
    answer (ok u) both = (
      validate_rdap_object limits parsed >>= (λ _. ok parsed),
      refl,
      λ value.
          let (down, up) = after_structure_lem limits parsed value (ok u) both in
          (λ h. down (ap some h), λ p. cc (up p)),
    )

-- The gate always answers, and it lets a body through exactly when the body is short enough, is JSON,
-- and its value keeps every limit; the value that it returns is the one that was parsed.
pub validate_rdap_response_iff :
    (from_slice : Text → Option Value) (limits : RdapValidationLimits) (body : Text)
    → (r : Result ValidationError Value) × (validate_rdap_response from_slice limits body ≡ some r)
      × ((value : Value)
          → (r ≡ ok value) ↔ (
              (length body ≤ limits.max_json_size)
              × (from_slice body ≡ some value)
              × Passes limits value))
unfolding validate_rdap_response
validate_rdap_response_iff from_slice limits body =
    elim (Bool-cases (ltb limits.max_json_size (length body))) [
      | inl e ↦ rw e (err json_too_large, refl, λ value. (λ h. cc, λ p. absurd (ground arith)))
      | inr e ↦ rw e (elim (Option-cases (from_slice body)) [
        | inl n ↦ rw n (err invalid_structure, refl, λ value. (λ h. cc, λ p. (cc p.1)))
        | inr (parsed, s) ↦
            let (r, eq, both) = after_structure_total limits parsed in
            rw s (
              r,
              eq,
              λ value. (
                λ h.
                    let (q, pass) = (both value).0 h in
                    (ground arith, ap some q, subst (Passes limits) q pass),
                λ p. let q : parsed ≡ value = cc (p.1) in (both value).1 (q, rw q p.2),
              ),
            )
      ])
    ]

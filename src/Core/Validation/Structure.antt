-- ===== src/Core/Validation/Structure.antt =====
-- crates/rdap-core/src/validation/json.rs: the walk with a stack of its own, beside the limits read by
-- recursion on the tree.
use rdapify.Base.{
  ℕ, zero, suc, ◌+◌, ◌≤◌, ◌<◌, ◌≡◌, ◌↔◌, some, [], ◌∷◌, refl, inl, inr, arith, length,
}
use rdapify.Base.Result.{Result, ok, err, Result-cases}
use rdapify.Core.Validation.{
  RdapValidationLimits, ValidationError, Value, Values, Fields, null, boolean, number, string,
  array, object, nil, cons, end, field, Stack, count, count_fields, push_items, push_fields, visit,
  walk, size, size_items, size_fields, validate_json_structure,
}

abbrev pub size_stack : Stack → ℕ
size_stack [] = 0
size_stack ((v, d) ∷ stack) = size v + size_stack stack

module _ (limits : RdapValidationLimits) where
  -- The limits, read by recursion on the tree; the children of a node are one level deeper.
  abbrev mutual
    pub Fits : Value → ℕ → Type 0
    Fits null depth = Unit
    Fits (boolean b) depth = Unit
    Fits (number n) depth = Unit
    Fits (string s) depth = length s ≤ limits.max_string_length
    Fits (array items) depth =
        (count items ≤ limits.max_array_length)
        × (0 < count items → depth + 1 ≤ limits.max_recursion_depth)
        × FitsItems items (depth + 1)
    Fits (object fields) depth =
        (count_fields fields ≤ limits.max_object_fields)
        × (0 < count_fields fields → depth + 1 ≤ limits.max_recursion_depth)
        × FitsFields fields (depth + 1)

    pub FitsItems : Values → ℕ → Type 0
    FitsItems nil depth = Unit
    FitsItems (cons v vs) depth = Fits v depth × FitsItems vs depth

    pub FitsFields : Fields → ℕ → Type 0
    FitsFields end depth = Unit
    FitsFields (field k v fs) depth = Fits v depth × FitsFields fs depth

  abbrev FitsStack : Stack → Type 0
  FitsStack [] = Unit
  FitsStack ((v, d) ∷ stack) = Fits v d × FitsStack stack

  push_items-Fits :
      (vs : Values) (d : ℕ) (stack : Stack)
      → FitsStack (push_items vs d stack) ↔ (FitsItems vs d × FitsStack stack)
  unfolding push_items
  push_items-Fits nil d stack = (λ h. (tt, h), λ h. h.1)
  push_items-Fits (cons v vs) d stack =
      let (down, up) = push_items-Fits vs d ((v, d) ∷ stack) in
      (λ h. let (rest, both) = down h in ((both.0, rest), both.1), λ h. up (h.0.1, (h.0.0, h.1)))

  push_fields-Fits :
      (fs : Fields) (d : ℕ) (stack : Stack)
      → FitsStack (push_fields fs d stack) ↔ (FitsFields fs d × FitsStack stack)
  unfolding push_fields
  push_fields-Fits end d stack = (λ h. (tt, h), λ h. h.1)
  push_fields-Fits (field k v fs) d stack =
      let (down, up) = push_fields-Fits fs d ((v, d) ∷ stack) in
      (λ h. let (rest, both) = down h in ((both.0, rest), both.1), λ h. up (h.0.1, (h.0.0, h.1)))

size_stack-push_items :
    (vs : Values) (d : ℕ) (stack : Stack)
    → size_stack (push_items vs d stack) ≡ size_items vs + size_stack stack
unfolding push_items size
size_stack-push_items nil d stack = omega arith
size_stack-push_items (cons v vs) d stack =
    omega (arith, size_stack-push_items vs d ((v, d) ∷ stack))

size_stack-push_fields :
    (fs : Fields) (d : ℕ) (stack : Stack)
    → size_stack (push_fields fs d stack) ≡ size_fields fs + size_stack stack
unfolding push_fields size
size_stack-push_fields end d stack = omega arith
size_stack-push_fields (field k v fs) d stack =
    omega (arith, size_stack-push_fields fs d ((v, d) ∷ stack))

-- A round that goes on takes one node off the count.
visit-size :
    (limits : RdapValidationLimits) (v : Value) (d : ℕ) (stack rest : Stack)
    → visit limits v d stack ≡ ok rest
    → size_stack rest + 1 ≡ size v + size_stack stack
unfolding visit size
visit-size limits null d stack rest h = ground arith
visit-size limits (boolean b) d stack rest h = ground arith
visit-size limits (number n) d stack rest h = ground arith
visit-size limits (string s) d stack rest h = ground arith
visit-size limits (array nil) d stack rest h = ground arith
visit-size limits (array (cons v vs)) d stack rest h =
    ground (arith, size_stack-push_items (cons v vs) (d + 1) stack)
visit-size limits (object end) d stack rest h = ground arith
visit-size limits (object (field k v fs)) d stack rest h =
    ground (arith, size_stack-push_fields (field k v fs) (d + 1) stack)

module _ (limits : RdapValidationLimits) where
  leaf :
      (F : Type 0) (stack rest : Stack)
      → rest ≡ stack
      → F
      → FitsStack limits rest ↔ (F × FitsStack limits stack)
  leaf F stack rest e f = rw e (λ s. (f, s), λ h. h.1)

  visit_ok :
      (v : Value) (d : ℕ) (stack rest : Stack)
      → visit limits v d stack ≡ ok rest
      → FitsStack limits rest ↔ (Fits limits v d × FitsStack limits stack)
  unfolding visit
  visit_ok null d stack rest h = leaf (Fits limits null d) stack rest (ground arith) tt
  visit_ok (boolean b) d stack rest h =
      leaf (Fits limits (boolean b) d) stack rest (ground arith) tt
  visit_ok (number n) d stack rest h = leaf (Fits limits (number n) d) stack rest (ground arith) tt
  visit_ok (string s) d stack rest h =
      leaf (Fits limits (string s) d) stack rest (ground arith) (ground arith)
  visit_ok (array nil) d stack rest h =
      leaf (Fits limits (array nil) d) stack rest (ground arith)
        (ground arith, λ p. absurd (omega arith), tt)
  visit_ok (array (cons v vs)) d stack rest h =
      let e : rest ≡ push_items (cons v vs) (d + 1) stack = ground arith in
      let (down, up) = push_items-Fits limits (cons v vs) (d + 1) stack in
      rw e (
        λ f. let (items, s) = down f in ((ground arith, λ p. ground arith, items), s),
        λ f. up (f.0.2, f.1),
      )
  visit_ok (object end) d stack rest h =
      leaf (Fits limits (object end) d) stack rest (ground arith)
        (ground arith, λ p. absurd (omega arith), tt)
  visit_ok (object (field k v fs)) d stack rest h =
      let e : rest ≡ push_fields (field k v fs) (d + 1) stack = ground arith in
      let (down, up) = push_fields-Fits limits (field k v fs) (d + 1) stack in
      rw e (
        λ f. let (fields, s) = down f in ((ground arith, λ p. ground arith, fields), s),
        λ f. up (f.0.2, f.1),
      )

  visit_err :
      (v : Value) (d : ℕ) (stack : Stack) (e : ValidationError)
      → visit limits v d stack ≡ err e
      → ¬ Fits limits v d
  unfolding visit
  visit_err null d stack e h = cc
  visit_err (boolean b) d stack e h = cc
  visit_err (number n) d stack e h = cc
  visit_err (string s) d stack e h = λ f. ground arith
  visit_err (array nil) d stack e h = λ f. ground arith
  visit_err (array (cons v vs)) d stack e h =
      λ (c, n, f). let deep = n (omega arith) in ground arith
  visit_err (object end) d stack e h = λ f. ground arith
  visit_err (object (field k v fs)) d stack e h =
      λ (c, n, f). let deep = n (omega arith) in ground arith

  -- With fuel for every node on the stack the walk returns, and its answer is the limits'.
  walk_lem :
      (fuel : ℕ) (stack : Stack)
      → size_stack stack < fuel
      → (r : Result ValidationError (Unit {0})) × (walk limits fuel stack ≡ some r)
        × ((r ≡ ok tt) ↔ FitsStack limits stack)
  unfolding walk
  walk_lem zero stack h = absurd (omega arith)
  walk_lem (suc fuel) [] h = (ok tt, refl, (λ e. tt, λ f. refl))
  walk_lem (suc fuel) ((v, d) ∷ stack) h = elim (Result-cases (visit limits v d stack)) [
    | inl (rest, e) ↦
        let smaller = visit-size limits v d stack rest e in
        let (r, eq, both) = walk_lem fuel rest (omega arith) in
        let (down, up) = visit_ok v d stack rest e in
        (r, rw (e, walk) eq, (λ o. down (both.0 o), λ f. both.1 (up f)))
    | inr (x, e) ↦ (err x, rw (e, walk), (λ o. cc, λ f. absurd (visit_err v d stack x e f.0)))
  ]

-- The walk always returns, and accepts exactly the trees within the limits: every array, object and
-- string short enough, and no child deeper than the recursion limit.
pub validate_json_structure_iff :
    (limits : RdapValidationLimits) (root : Value)
    → (r : Result ValidationError (Unit {0})) × (validate_json_structure limits root ≡ some r)
      × ((r ≡ ok tt) ↔ Fits limits root 0)
unfolding validate_json_structure
validate_json_structure_iff limits root =
    let (r, eq, both) = walk_lem limits (size root + 1) ((root, 0) ∷ []) (omega arith) in
    (r, eq, (λ o. (both.0 o).0, λ f. both.1 (f, tt)))

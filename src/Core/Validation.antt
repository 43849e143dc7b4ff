-- ===== src/Core/Validation.antt =====
-- crates/rdap-core/src/validation: the gate between the bytes of a response and `serde`.
pub mod Structure
pub mod Response
use rdapify.Base.{
  ℕ, zero, suc, ◌+◌, ◌*◌, Bool, true, false, Option, none, some, List, [], ◌∷◌, ltb, length,
  if◌then◌else◌,
}
use rdapify.Base.Text.{Text, text, text_eq}
use rdapify.Base.Result.{Result, ok, err, ◌>>=◌, ◌>>◌}

-- error.rs
pub data ValidationError : Type 0 where
  json_too_large invalid_structure too_many_array_items too_many_object_fields : ValidationError
  string_too_long recursion_too_deep too_many_entities too_many_links : ValidationError
  too_many_events : ValidationError

-- limits.rs
pub record RdapValidationLimits : Type 0 where
  pub max_json_size : ℕ
  pub max_array_length : ℕ
  pub max_object_fields : ℕ
  pub max_string_length : ℕ
  pub max_recursion_depth : ℕ
  pub max_entities : ℕ
  pub max_links : ℕ
  pub max_events : ℕ

abbrev pub default_limits : RdapValidationLimits
default_limits = record {
  max_json_size = 5 * 1024 * 1024;
  max_array_length = 1000;
  max_object_fields = 200;
  max_string_length = 10 * 1024;
  max_recursion_depth = 10;
  max_entities = 100;
  max_links = 100;
  max_events = 100;
}

-- `serde_json::Value`; an object holds its fields in the order of its iterator, keys all different.
mutual
  pub data Value : Type 0 where
    null : Value
    boolean : Bool → Value
    number : Text → Value
    string : Text → Value
    array : Values → Value
    object : Fields → Value

  pub data Values : Type 0 where
    nil : Values
    cons : Value → Values → Values

  pub data Fields : Type 0 where
    end : Fields
    field : Text → Value → Fields → Fields

-- `Vec::len` and `Map::len`.
abbrev pub count : Values → ℕ
count nil = 0
count (cons v vs) = suc (count vs)

abbrev pub count_fields : Fields → ℕ
count_fields end = 0
count_fields (field k v fs) = suc (count_fields fs)

-- A node and its depth; the top of the stack is the head of the list.
abbrev pub Stack : Type 0
Stack = List (Value × ℕ)

-- `for item in arr { stack.push((item, next)); }`
pub push_items : Values → ℕ → Stack → Stack
push_items nil next stack = stack
push_items (cons v vs) next stack = push_items vs next ((v, next) ∷ stack)

pub push_fields : Fields → ℕ → Stack → Stack
push_fields end next stack = stack
push_fields (field k v fs) next stack = push_fields fs next ((v, next) ∷ stack)

module _ (limits : RdapValidationLimits) where
  -- One round of the loop: what is left on the stack, or an error.
  visit_array : Values → ℕ → Stack → Result ValidationError Stack
  visit_array items depth stack =
      if ltb limits.max_array_length (count items) then err too_many_array_items else elim items [
        | nil ↦ ok stack
        | cons v vs ↦
            if ltb limits.max_recursion_depth (depth + 1)
            then err recursion_too_deep
            else ok (push_items (cons v vs) (depth + 1) stack)
      ]

  visit_object : Fields → ℕ → Stack → Result ValidationError Stack
  visit_object fields depth stack =
      if ltb limits.max_object_fields (count_fields fields)
      then err too_many_object_fields
      else elim fields [
        | end ↦ ok stack
        | field k v fs ↦
            if ltb limits.max_recursion_depth (depth + 1)
            then err recursion_too_deep
            else ok (push_fields (field k v fs) (depth + 1) stack)
      ]

  unfoldable pub visit : Value → ℕ → Stack → Result ValidationError Stack
  unfolding visit_array visit_object
  visit (array items) depth stack = visit_array items depth stack
  visit (object fields) depth stack = visit_object fields depth stack
  visit (string s) depth stack =
      if ltb limits.max_string_length (length s) then err string_too_long else ok stack
  visit null depth stack = ok stack
  visit (boolean b) depth stack = ok stack
  visit (number n) depth stack = ok stack

  -- The `while let` loop; `none` when the fuel runs out.
  unfoldable pub walk : ℕ → Stack → Option (Result ValidationError (Unit {0}))
  walk zero stack = none
  walk (suc fuel) [] = some (ok tt)
  walk (suc fuel) ((node, depth) ∷ stack) = elim (visit node depth stack) [
    | ok rest ↦ walk fuel rest
    | err e ↦ some (err e)
  ]

-- How many nodes a tree has.
unfoldable mutual
  pub size : Value → ℕ
  size null = 1
  size (boolean b) = 1
  size (number n) = 1
  size (string s) = 1
  size (array items) = suc (size_items items)
  size (object fields) = suc (size_fields fields)

  pub size_items : Values → ℕ
  size_items nil = 0
  size_items (cons v vs) = size v + size_items vs

  pub size_fields : Fields → ℕ
  size_fields end = 0
  size_fields (field k v fs) = size v + size_fields fs

-- As many rounds as the tree has nodes, and one to see that the stack is empty.
unfoldable pub validate_json_structure :
    RdapValidationLimits → Value → Option (Result ValidationError (Unit {0}))
unfolding walk size
validate_json_structure limits root = walk limits (size root + 1) ((root, 0) ∷ [])

-- The length of a field that is an array, and 0 for any other or none.
unfoldable pub array_len : Fields → Text → ℕ
array_len end key = 0
array_len (field k v fs) key =
    if text_eq k key then (elim v [ array items ↦ count items | _ ↦ 0 ]) else array_len fs key

abbrev pub check_len : ℕ → ℕ → ValidationError → Result ValidationError (Unit {0})
check_len len limit e = if ltb limit len then err e else ok tt

-- rdap.rs
unfoldable pub validate_rdap_object :
    RdapValidationLimits → Value → Result ValidationError (Unit {0})
validate_rdap_object limits (object obj) = do
  check_len (array_len obj (text "entities")) limits.max_entities too_many_entities
  check_len (array_len obj (text "links")) limits.max_links too_many_links
  check_len (array_len obj (text "events")) limits.max_events too_many_events
  check_len (array_len obj (text "remarks")) limits.max_array_length too_many_array_items
  check_len (array_len obj (text "notices")) limits.max_array_length too_many_array_items
  check_len (array_len obj (text "nameservers")) limits.max_array_length too_many_array_items
validate_rdap_object limits _ = ok tt

abbrev after_structure :
    RdapValidationLimits
    → Value
    → Option (Result ValidationError (Unit {0}))
    → Option (Result ValidationError Value)
after_structure limits value none = none
after_structure limits value (some (err e)) = some (err e)
after_structure limits value (some (ok _)) =
    some (validate_rdap_object limits value >>= (λ _. ok value))

-- mod.rs; `from_slice` is that of `serde_json`.
unfoldable pub validate_rdap_response :
    (Text → Option Value) → RdapValidationLimits → Text → Option (Result ValidationError Value)
validate_rdap_response from_slice limits json_bytes =
    if ltb limits.max_json_size (length json_bytes)
    then some (err json_too_large)
    else elim (from_slice json_bytes) [
      | none ↦ some (err invalid_structure)
      | some value ↦ after_structure limits value (validate_json_structure limits value)
    ]

-- ===== src/Types/Json.antt =====
-- What crates/rdap-types and crates/rdap-core use of `serde_json::Value`, and what the derived
-- `Deserialize` of a struct does with one: an object by its keys, an array by position.
use rdapify.Base.{ℕ, Option, none, some, List, [], ◌∷◌, ltb, if◌then◌else◌}
use rdapify.Base.Text.{Text, text_eq}
use rdapify.Base.Optional.{◌>>=◌, map_some}
use rdapify.Core.Validation.{
  Value, Values, Fields, null, boolean, number, string, array, object, nil, cons, end, field, count,
}

-- `Map::get`.
unfoldable pub get_field : Text → Fields → Option Value
get_field key end = none
get_field key (field k v fs) = if text_eq k key then some v else get_field key fs

-- `Value::as_str`, `as_array` and `as_object`.
abbrev pub as_str : Value → Option Text
as_str (string s) = some s
as_str _ = none

abbrev pub as_array : Value → Option Values
as_array (array items) = some items
as_array _ = none

abbrev pub as_object : Value → Option Fields
as_object (object fields) = some fields
as_object _ = none

abbrev pub keep : {A : Type 0} → Option A → List A → List A
keep none rest = rest
keep (some a) rest = a ∷ rest

-- `Iterator::filter_map` over the items, collected.
unfoldable pub filter_map : {A : Type 0} → (Value → Option A) → Values → List A
filter_map f nil = []
filter_map f (cons v vs) = keep (f v) (filter_map f vs)

-- `Vec<T>`: all the items, or none of them.
unfoldable pub collect : {A : Type 0} → (Value → Option A) → Values → Option (List A)
collect f nil = some []
collect f (cons v vs) = do let rest = collect f vs; a ← f v; others ← rest; some (a ∷ others)

-- The `Deserialize` of `String`, `Vec<T>` and `Option<T>`.
abbrev pub vec_of : {A : Type 0} → (Value → Option A) → Value → Option (List A)
vec_of f v = as_array v >>= collect f

abbrev pub option_of : {A : Type 0} → (Value → Option A) → Value → Option (Option A)
option_of f null = some none
option_of f (boolean b) = map_some some (f (boolean b))
option_of f (number n) = map_some some (f (number n))
option_of f (string s) = map_some some (f (string s))
option_of f (array items) = map_some some (f (array items))
option_of f (object fields) = map_some some (f (object fields))

-- A field that must be there, one of type `Option<T>`, and one with `#[serde(default)]`.
abbrev pub required : {A : Type 0} → (Value → Option A) → Option Value → Option A
required f found = found >>= f

abbrev pub optional : {A : Type 0} → (Value → Option A) → Option Value → Option (Option A)
optional f none = some none
optional f (some v) = option_of f v

abbrev pub defaulted : {A : Type 0} → (Value → Option (List A)) → Option Value → Option (List A)
defaulted f none = some []
defaulted f (some v) = f v

-- The items under the names of the fields, in their order; too many items are an error.
unfoldable pub zip_names : List Text → Values → Option Fields
zip_names names nil = some end
zip_names [] (cons v vs) = none
zip_names (name ∷ names) (cons v vs) = map_some (field name v) (zip_names names vs)

-- The fields of a struct. In an array, those without a default must be there.
unfoldable pub struct_fields : ℕ → List Text → Value → Option Fields
struct_fields required_count names (object fields) = some fields
struct_fields required_count names (array items) =
    if ltb (count items) required_count then none else zip_names names items
struct_fields required_count names _ = none

-- ===== src/Core/Normalizer/Names.antt =====
-- crates/rdap-core/src/normalizer.rs: the host names of a domain's response.
use rdapify.Base.{ℕ, ◌≡◌, ◌≤◌, refl, Bool, Option, none, some, List, [], ◌∷◌, arith, All, subst}
use rdapify.Base.Text.{Text, text, to_lowercase, lower}
use rdapify.Base.Optional.{map_some}
use rdapify.Base.Result.{ok}
use rdapify.Core.Validation.{Value, Values, null, boolean, number, string, array, object, nil, cons}
use rdapify.Types.Json.{get_field, filter_map, keep}
use rdapify.Types.Response.{DomainResponse}
use rdapify.Core.Normalizer.Classes.{gated_ok}
use rdapify.Core.Normalizer.{domain, domain_of, nameserver_name, parse_list, string_field}

-- Whether a text has no capital letter.
abbrev pub NoCapitals : Text → Type 0
NoCapitals s = All (λ (c : ℕ). ¬ ((65 ≤ c) × (c ≤ 90))) s

to_lowercase-NoCapitals : (s : Text) → NoCapitals (to_lowercase s)
unfolding to_lowercase lower
to_lowercase-NoCapitals [] = tt
to_lowercase-NoCapitals (c ∷ s) = (λ (low, high). ground arith, to_lowercase-NoCapitals s)

keep-All :
    {A : Type 0} (P : A → Type 0) (o : Option A) (rest : List A)
    → ((a : A) → o ≡ some a → P a)
    → All P rest
    → All P (keep o rest)
keep-All P none rest each h = h
keep-All P (some a) rest each h = (each a refl, h)

filter_map-All :
    {A : Type 0} (P : A → Type 0) (f : Value → Option A)
    → ((v : Value) (a : A) → f v ≡ some a → P a)
    → (items : Values) → All P (filter_map f items)
unfolding filter_map
filter_map-All P f each nil = tt
filter_map-All P f each (cons v vs) =
    keep-All P (f v) (filter_map f vs) (each v) (filter_map-All P f each vs)

-- The optional name, if it is there.
abbrev pub IfSome : (Text → Type 0) → Option Text → Type 0
IfSome P none = Unit
IfSome P (some s) = P s

map_some-to_lowercase : (o : Option Text) → IfSome NoCapitals (map_some to_lowercase o)
map_some-to_lowercase none = tt
map_some-to_lowercase (some s) = to_lowercase-NoCapitals s

nameserver_name-NoCapitals : (v : Value) (s : Text) → nameserver_name v ≡ some s → NoCapitals s
unfolding nameserver_name
nameserver_name-NoCapitals v s h = subst (IfSome NoCapitals) h (map_some-to_lowercase _)

parse_list-All :
    {A : Type 0} (P : A → Type 0) (f : Value → Option A)
    → ((v : Value) (a : A) → f v ≡ some a → P a)
    → (found : Option Value) → All P (parse_list f found)
parse_list-All P f each none = tt
parse_list-All P f each (some (array items)) = filter_map-All P f each items
parse_list-All P f each (some null) = tt
parse_list-All P f each (some (boolean b)) = tt
parse_list-All P f each (some (number n)) = tt
parse_list-All P f each (some (string s)) = tt
parse_list-All P f each (some (object fields)) = tt

-- The LDH name and every nameserver in the answer for a domain are free of capital letters, however the
-- registry spelt them.
pub domain-NoCapitals :
    (now source query : Text) (cached : Bool) (raw : Value) (response : DomainResponse)
    → domain now source cached query raw ≡ ok response
    → IfSome NoCapitals response.ldh_name × All NoCapitals response.nameservers
unfolding domain domain_of
domain-NoCapitals now source query cached raw response h =
    let (obj, same) = gated_ok (domain_of now source cached query) (text "domain") raw response h in
    rw same (
      map_some-to_lowercase (string_field obj (text "ldhName")),
      parse_list-All NoCapitals nameserver_name nameserver_name-NoCapitals
          (get_field (text "nameservers") obj),
    )

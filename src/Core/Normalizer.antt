-- ===== src/Core/Normalizer.antt =====
-- crates/rdap-core/src/normalizer.rs. `queried_at`, which the source takes from the clock, is an
-- argument.
mod Tests
pub mod Classes
pub mod Registrar
pub mod Names
use rdapify.Base.{
  ℕ, ◌+◌, ◌*◌, ◌%◌, ◌^◌, Bool, true, false, Option, none, some, List, [], ◌∷◌, find, any,
  if◌then◌else◌,
}
use rdapify.Base.Text.{Text, text, text_eq, to_lowercase}
use rdapify.Base.Text.Number.{parse_unsigned}
use rdapify.Base.Optional.{◌>>-◌, map_some, or_else, unwrap_or}
use rdapify.Base.Result.{Result, ok, err, ◌>>=◌, ◌>>◌}
use rdapify.Core.Validation.{
  Value, Values, Fields, null, boolean, number, string, array, object, nil, cons,
}
use rdapify.Types.Error.{RdapError, parse_error, missing_object_class, unknown_object_class}
use rdapify.Types.Json.{get_field, as_str, as_array, as_object, filter_map}
use rdapify.Types.Common.{
  RdapStatus, RdapRole, registrar, RdapEvent, RdapLink, RdapRemark, RdapEntity, own, ResponseMeta,
  deserialize_status, deserialize_role, deserialize_event, deserialize_link, deserialize_remark,
  deserialize_entity,
}
use rdapify.Types.Response.{
  RegistrarSummary, DomainResponse, IpVersion, IpResponse, AsnResponse, NameserverIpAddresses,
  NameserverResponse, EntityResponse,
}
use rdapify.Types.Response.IpVersion.{v4, v6}

unfoldable pub make_meta : Text → Text → Bool → ResponseMeta
make_meta now source cached = record { source = source; queried_at = now; cached = cached }

unfoldable pub require_object : Value → Result RdapError Fields
require_object (object obj) = ok obj
require_object _ = err parse_error

abbrev check_class : Text → Option Text → Result RdapError (Unit {0})
check_class expected none = err missing_object_class
check_class expected (some class) =
    if text_eq class expected then ok tt else err (unknown_object_class class)

unfoldable pub string_field : Fields → Text → Option Text
string_field obj key = get_field key obj >>- as_str

unfoldable pub check_object_class : Fields → Text → Result RdapError (Unit {0})
check_object_class obj expected = check_class expected (string_field obj (text "objectClassName"))

-- The five parsers of lists: what of an array deserializes, and nothing for any other value.
abbrev parse_list : {A : Type 0} → (Value → Option A) → Option Value → List A
parse_list f value = unwrap_or (map_some (filter_map f) (value >>- as_array)) []

unfoldable pub parse_status : Option Value → List RdapStatus
parse_status = parse_list deserialize_status

unfoldable pub parse_events : Option Value → List RdapEvent
parse_events = parse_list deserialize_event

unfoldable pub parse_links : Option Value → List RdapLink
parse_links = parse_list deserialize_link

unfoldable pub parse_remarks : Option Value → List RdapRemark
parse_remarks = parse_list deserialize_remark

unfoldable pub parse_entities : Option Value → List RdapEntity
parse_entities = parse_list deserialize_entity

abbrev pub is_registrar : RdapRole → Bool
is_registrar registrar = true
is_registrar _ = false

abbrev pub has_registrar_role : RdapEntity → Bool
has_registrar_role e = any is_registrar (own e).roles

-- `Vec::get`.
unfoldable pub nth : ℕ → Values → Option Value
nth n nil = none
nth ℕ.zero (cons v vs) = some v
nth (ℕ.suc n) (cons v vs) = nth n vs

-- One round of the loop; `next` is the rest of it.
abbrev vcard_property : Option Values → Option Text → Option Text
vcard_property none next = none
vcard_property (some arr) next = (nth 0 arr >>- as_str) >>- λ name.
    if text_eq name (text "fn") then nth 3 arr >>- as_str else next

unfoldable pub vcard_name_in : Values → Option Text
vcard_name_in nil = none
vcard_name_in (cons prop props) =
    let next = vcard_name_in props in vcard_property (as_array prop) next

unfoldable pub extract_vcard_name : Value → Option Text
extract_vcard_name vcard = ((as_array vcard >>- nth 1) >>- as_array) >>- vcard_name_in

abbrev is_self : RdapLink → Bool
is_self link = elim link.rel [ none ↦ false | some rel ↦ text_eq rel (text "self") ]

unfoldable pub summary_of : RdapEntity → RegistrarSummary
summary_of e = record {
  name = (own e).vcard_array >>- extract_vcard_name;
  handle = (own e).handle;
  url = map_some (λ (l : RdapLink). l.href) (find is_self (own e).links);
  abuse_email = none;
  abuse_phone = none;
}

unfoldable pub extract_registrar : List RdapEntity → Option RegistrarSummary
extract_registrar entities = map_some summary_of (find has_registrar_role entities)

-- `ns.get(..)`, for a value of any kind.
abbrev get_in : Text → Value → Option Value
get_in key v = as_object v >>- get_field key

unfoldable pub nameserver_name : Value → Option Text
nameserver_name ns =
    map_some to_lowercase
      (or_else (get_in (text "ldhName") ns) (get_in (text "unicodeName") ns) >>- as_str)

abbrev ip_version_of : Text → IpVersion
ip_version_of s = if text_eq s (text "v4") then v4 else v6

-- `Value::as_u64`: a number written without sign, point and exponent, if it fits. Then `as u32`.
abbrev as_u64 : Value → Option ℕ
as_u64 (number n) = parse_unsigned (2 ^ 64) n
as_u64 _ = none

unfoldable pub autnum_field : Fields → Text → Option ℕ
autnum_field obj key = map_some (λ (n : ℕ). n % 2 ^ 32) (get_field key obj >>- as_u64)

unfoldable pub ip_addresses_of : Fields → NameserverIpAddresses
ip_addresses_of obj =
    let ip_obj = get_field (text "ipAddresses") obj >>- as_object in
    record {
      v4 = parse_list as_str (ip_obj >>- get_field (text "v4"));
      v6 = parse_list as_str (ip_obj >>- get_field (text "v6"));
    }

module _ (now source : Text) (cached : Bool) where
  unfoldable pub domain_of : Text → Fields → DomainResponse
  domain_of query obj =
      let entities = parse_entities (get_field (text "entities") obj) in
      record {
        query = query;
        ldh_name = map_some to_lowercase (string_field obj (text "ldhName"));
        unicode_name = string_field obj (text "unicodeName");
        handle = string_field obj (text "handle");
        status = parse_status (get_field (text "status") obj);
        nameservers = parse_list nameserver_name (get_field (text "nameservers") obj);
        registrar = extract_registrar entities;
        entities = entities;
        events = parse_events (get_field (text "events") obj);
        links = parse_links (get_field (text "links") obj);
        remarks = parse_remarks (get_field (text "remarks") obj);
        meta = make_meta now source cached;
      }

  unfoldable pub domain : Text → Value → Result RdapError DomainResponse
  domain query raw = do
    obj ← require_object raw
    check_object_class obj (text "domain")
    ok (domain_of query obj)

  unfoldable pub ip_of : Text → Fields → IpResponse
  ip_of query obj = record {
    query = query;
    handle = string_field obj (text "handle");
    start_address = string_field obj (text "startAddress");
    end_address = string_field obj (text "endAddress");
    ip_version = map_some ip_version_of (string_field obj (text "ipVersion"));
    name = string_field obj (text "name");
    allocation_type = string_field obj (text "type");
    country = string_field obj (text "country");
    parent_handle = string_field obj (text "parentHandle");
    status = parse_status (get_field (text "status") obj);
    entities = parse_entities (get_field (text "entities") obj);
    events = parse_events (get_field (text "events") obj);
    links = parse_links (get_field (text "links") obj);
    remarks = parse_remarks (get_field (text "remarks") obj);
    meta = make_meta now source cached;
  }

  unfoldable pub ip : Text → Value → Result RdapError IpResponse
  ip query raw = do
    obj ← require_object raw
    check_object_class obj (text "ip network")
    ok (ip_of query obj)

  unfoldable pub asn_of : ℕ → Fields → AsnResponse
  asn_of query obj = record {
    query = query;
    handle = string_field obj (text "handle");
    start_autnum = autnum_field obj (text "startAutnum");
    end_autnum = autnum_field obj (text "endAutnum");
    name = string_field obj (text "name");
    autnum_type = string_field obj (text "type");
    country = string_field obj (text "country");
    status = parse_status (get_field (text "status") obj);
    entities = parse_entities (get_field (text "entities") obj);
    events = parse_events (get_field (text "events") obj);
    links = parse_links (get_field (text "links") obj);
    remarks = parse_remarks (get_field (text "remarks") obj);
    meta = make_meta now source cached;
  }

  unfoldable pub asn : ℕ → Value → Result RdapError AsnResponse
  asn query raw = do
    obj ← require_object raw
    check_object_class obj (text "autnum")
    ok (asn_of query obj)

  unfoldable pub nameserver_of : Text → Fields → NameserverResponse
  nameserver_of query obj = record {
    query = query;
    handle = string_field obj (text "handle");
    ldh_name = string_field obj (text "ldhName");
    unicode_name = string_field obj (text "unicodeName");
    ip_addresses = ip_addresses_of obj;
    status = parse_status (get_field (text "status") obj);
    entities = parse_entities (get_field (text "entities") obj);
    events = parse_events (get_field (text "events") obj);
    links = parse_links (get_field (text "links") obj);
    remarks = parse_remarks (get_field (text "remarks") obj);
    meta = make_meta now source cached;
  }

  unfoldable pub nameserver : Text → Value → Result RdapError NameserverResponse
  nameserver query raw = do
    obj ← require_object raw
    check_object_class obj (text "nameserver")
    ok (nameserver_of query obj)

  unfoldable pub entity_of : Text → Fields → EntityResponse
  entity_of query obj = record {
    query = query;
    handle = string_field obj (text "handle");
    vcard_array = get_field (text "vcardArray") obj;
    roles = parse_list deserialize_role (get_field (text "roles") obj);
    status = parse_status (get_field (text "status") obj);
    entities = parse_entities (get_field (text "entities") obj);
    events = parse_events (get_field (text "events") obj);
    links = parse_links (get_field (text "links") obj);
    remarks = parse_remarks (get_field (text "remarks") obj);
    meta = make_meta now source cached;
  }

  unfoldable pub entity : Text → Value → Result RdapError EntityResponse
  entity query raw = do
    obj ← require_object raw
    check_object_class obj (text "entity")
    ok (entity_of query obj)

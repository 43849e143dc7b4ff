-- ===== src/Types/Common.antt =====
-- crates/rdap-types/src/common.rs, with the derived `Serialize` of the two enums and the derived
-- `Deserialize` of all but `ResponseMeta`.
mod Tests
pub mod Names
use rdapify.Base.{ℕ, zero, suc, Bool, Option, none, some, List, [], ◌∷◌, ltb, if◌then◌else◌}
use rdapify.Base.Text.{Text, text, text_eq}
use rdapify.Base.Text.Keyed.{get}
use rdapify.Base.Optional.{◌>>=◌, unwrap_or}
use rdapify.Core.Validation.{
  Value, Values, Fields, null, boolean, number, string, array, object, nil, cons, end, field, count,
}
use rdapify.Types.Json.{
  get_field, as_str, vec_of, required, optional, defaulted, zip_names, struct_fields,
}

pub data RdapStatus : Type 0 where
  validated renew_prohibited update_prohibited transfer_prohibited delete_prohibited : RdapStatus
  proxy private removed obscured associated active inactive locked : RdapStatus
  pending_create pending_renew pending_transfer pending_update pending_delete : RdapStatus
  other : Text → RdapStatus

pub data RdapRole : Type 0 where
  registrant technical administrative abuse billing registrar reseller sponsor : RdapRole
  proxy notifications noc : RdapRole
  other : Text → RdapRole

-- The names of the variants but the last.
abbrev pub status_names : List (Text × RdapStatus)
status_names =
    (text "validated", validated)
    ∷ (text "renew prohibited", renew_prohibited)
    ∷ (text "update prohibited", update_prohibited)
    ∷ (text "transfer prohibited", transfer_prohibited)
    ∷ (text "delete prohibited", delete_prohibited)
    ∷ (text "proxy", RdapStatus.proxy)
    ∷ (text "private", private)
    ∷ (text "removed", removed)
    ∷ (text "obscured", obscured)
    ∷ (text "associated", associated)
    ∷ (text "active", active)
    ∷ (text "inactive", inactive)
    ∷ (text "locked", locked)
    ∷ (text "pending create", pending_create)
    ∷ (text "pending renew", pending_renew)
    ∷ (text "pending transfer", pending_transfer)
    ∷ (text "pending update", pending_update)
    ∷ (text "pending delete", pending_delete)
    ∷ []

abbrev pub role_names : List (Text × RdapRole)
role_names =
    (text "registrant", registrant)
    ∷ (text "technical", technical)
    ∷ (text "administrative", administrative)
    ∷ (text "abuse", abuse)
    ∷ (text "billing", billing)
    ∷ (text "registrar", registrar)
    ∷ (text "reseller", reseller)
    ∷ (text "sponsor", sponsor)
    ∷ (text "proxy", RdapRole.proxy)
    ∷ (text "notifications", notifications)
    ∷ (text "noc", noc)
    ∷ []

-- The derived `Serialize`.
unfoldable pub serialize_status : RdapStatus → Text
serialize_status validated = text "validated"
serialize_status renew_prohibited = text "renew prohibited"
serialize_status update_prohibited = text "update prohibited"
serialize_status transfer_prohibited = text "transfer prohibited"
serialize_status delete_prohibited = text "delete prohibited"
serialize_status proxy = text "proxy"
serialize_status private = text "private"
serialize_status removed = text "removed"
serialize_status obscured = text "obscured"
serialize_status associated = text "associated"
serialize_status active = text "active"
serialize_status inactive = text "inactive"
serialize_status locked = text "locked"
serialize_status pending_create = text "pending create"
serialize_status pending_renew = text "pending renew"
serialize_status pending_transfer = text "pending transfer"
serialize_status pending_update = text "pending update"
serialize_status pending_delete = text "pending delete"
serialize_status (other s) = s

unfoldable pub serialize_role : RdapRole → Text
serialize_role registrant = text "registrant"
serialize_role technical = text "technical"
serialize_role administrative = text "administrative"
serialize_role abuse = text "abuse"
serialize_role billing = text "billing"
serialize_role registrar = text "registrar"
serialize_role reseller = text "reseller"
serialize_role sponsor = text "sponsor"
serialize_role proxy = text "proxy"
serialize_role notifications = text "notifications"
serialize_role noc = text "noc"
serialize_role (other s) = s

-- A variant by its name, alone or as the one key of an object that holds null.
pub variant_of : {A : Type 0} → List (Text × A) → Value → Option A
variant_of names (string s) = get s names
variant_of names (object (field k null end)) = get k names
variant_of names _ = none

-- The variants with a name first, then the untagged one, which takes any string.
pub deserialize_enum : {A : Type 0} → List (Text × A) → (Text → A) → Value → Option A
unfolding variant_of
deserialize_enum names untagged v = elim (variant_of names v) [
  | some a ↦ some a
  | none ↦ as_str v >>= λ s. some (untagged s)
]

unfoldable pub deserialize_status : Value → Option RdapStatus
unfolding deserialize_enum
deserialize_status = deserialize_enum status_names RdapStatus.other

unfoldable pub deserialize_role : Value → Option RdapRole
unfolding deserialize_enum
deserialize_role = deserialize_enum role_names RdapRole.other

pub record RdapEvent : Type 0 where
  pub event_action : Text
  pub event_date : Text
  pub event_actor : Option Text

pub record RdapLink : Type 0 where
  pub href : Text
  pub rel : Option Text
  pub media_type : Option Text
  pub title : Option Text

pub record RdapRemark : Type 0 where
  pub title : Option Text
  pub remark_type : Option Text
  pub description : List Text
  pub links : List RdapLink

unfoldable pub deserialize_event : Value → Option RdapEvent
deserialize_event v = do
  obj ← struct_fields 3 (text "eventAction" ∷ text "eventDate" ∷ text "eventActor" ∷ []) v
  action ← required as_str (get_field (text "eventAction") obj)
  date ← required as_str (get_field (text "eventDate") obj)
  actor ← optional as_str (get_field (text "eventActor") obj)
  some (record { event_action = action; event_date = date; event_actor = actor })

unfoldable pub deserialize_link : Value → Option RdapLink
deserialize_link v = do
  obj ← struct_fields 4 (text "href" ∷ text "rel" ∷ text "type" ∷ text "title" ∷ []) v
  href ← required as_str (get_field (text "href") obj)
  rel ← optional as_str (get_field (text "rel") obj)
  media_type ← optional as_str (get_field (text "type") obj)
  title ← optional as_str (get_field (text "title") obj)
  some (record { href = href; rel = rel; media_type = media_type; title = title })

unfoldable pub deserialize_remark : Value → Option RdapRemark
deserialize_remark v = do
  obj ← struct_fields 3 (text "title" ∷ text "type" ∷ text "description" ∷ text "links" ∷ []) v
  title ← optional as_str (get_field (text "title") obj)
  remark_type ← optional as_str (get_field (text "type") obj)
  description ← required (vec_of as_str) (get_field (text "description") obj)
  links ← defaulted (vec_of deserialize_link) (get_field (text "links") obj)
  some (record {
    title = title;
    remark_type = remark_type;
    description = description;
    links = links;
  })

-- `RdapEntity`, its fields in the order of the source but the nested entities.
pub record EntityData : Type 0 where
  pub handle : Option Text
  pub vcard_array : Option Value
  pub roles : List RdapRole
  pub events : List RdapEvent
  pub links : List RdapLink
  pub remarks : List RdapRemark

mutual
  pub data RdapEntity : Type 0 where
    entity : EntityData → RdapEntities → RdapEntity

  pub data RdapEntities : Type 0 where
    no_entities : RdapEntities
    more : RdapEntity → RdapEntities → RdapEntities

abbrev pub own : RdapEntity → EntityData
own (entity data_of nested) = data_of

abbrev entity_fields : List Text
entity_fields =
    text "handle"
    ∷ text "vcardArray"
    ∷ text "roles"
    ∷ text "events"
    ∷ text "links"
    ∷ text "remarks"
    ∷ text "entities"
    ∷ []

abbrev raw : Value → Option Value
raw v = some v

unfoldable pub deserialize_own : Fields → Option EntityData
deserialize_own obj = do
  handle ← optional as_str (get_field (text "handle") obj)
  vcard_array ← optional raw (get_field (text "vcardArray") obj)
  roles ← defaulted (vec_of deserialize_role) (get_field (text "roles") obj)
  events ← defaulted (vec_of deserialize_event) (get_field (text "events") obj)
  links ← defaulted (vec_of deserialize_link) (get_field (text "links") obj)
  remarks ← defaulted (vec_of deserialize_remark) (get_field (text "remarks") obj)
  some (record {
    handle = handle;
    vcard_array = vcard_array;
    roles = roles;
    events = events;
    links = links;
    remarks = remarks;
  })

abbrev with_nested : Option Fields → Option RdapEntities → Option RdapEntity
with_nested found nested = do
  obj ← found
  data_of ← deserialize_own obj
  entities ← nested
  some (entity data_of entities)

-- The nested entities are the field of that name, in an array the seventh item.
unfoldable mutual
  pub deserialize_entity : Value → Option RdapEntity
  deserialize_entity (object obj) = with_nested (some obj) (nested_in obj)
  deserialize_entity (array items) =
      with_nested (struct_fields 2 entity_fields (array items)) (nested_at 6 items)
  deserialize_entity null = none
  deserialize_entity (boolean b) = none
  deserialize_entity (number n) = none
  deserialize_entity (string s) = none

  nested_in : Fields → Option RdapEntities
  nested_in end = some no_entities
  nested_in (field k v fs) =
      let found = deserialize_entities v in
      let rest = nested_in fs in if text_eq k (text "entities") then found else rest

  nested_at : ℕ → Values → Option RdapEntities
  nested_at n nil = some no_entities
  nested_at zero (cons v vs) = deserialize_entities v
  nested_at (suc n) (cons v vs) = nested_at n vs

  deserialize_entities : Value → Option RdapEntities
  deserialize_entities (array items) = all_entities items
  deserialize_entities (object fields) = none
  deserialize_entities null = none
  deserialize_entities (boolean b) = none
  deserialize_entities (number n) = none
  deserialize_entities (string s) = none

  all_entities : Values → Option RdapEntities
  all_entities nil = some no_entities
  all_entities (cons v vs) = do
    let first = deserialize_entity v
    let rest = all_entities vs
    e ← first
    es ← rest
    some (more e es)

pub record ResponseMeta : Type 0 where
  pub source : Text
  pub queried_at : Text
  pub cached : Bool

-- ===== src/Service.antt =====
-- crates/rdap-service/src: the error of a response (error.rs), and the handlers of handlers/rdap.rs and
-- handlers/batch.rs. Metrics and log lines are
-- left out.
mod Tests
pub mod Batches
pub mod Codes
use rdapify.Base.{
  ℕ, Bool, true, false, ◌&&◌, Option, none, some, List, [], ◌∷◌, map, length, ltb, leb, min, ◌==◌,
  if◌then◌else◌,
}
use rdapify.Base.Text.{Text, text, text_eq}
use rdapify.Base.Optional.{map_some, unwrap_or}
use rdapify.Base.Result.{Result, ok, err, ◌>>=◌}
use rdapify.Types.Error as Error
use rdapify.Types.Error.{RdapError, status_code}
use rdapify.Types.Response.{expiration_date}
use rdapify.Types.Common.{RdapEntity}
use rdapify.Client.{Parts, State, World}
use rdapify.Client.Queries as Client
use rdapify.Batch.{
  BatchConfig, Runtime, run_stream, BatchQuery, BatchItemResult, answered, failed, BatchError,
  RdapResponse, ErrorCategory, not_found, process_query,
}

-- `StatusCode::from_u16`, with 500 for what is no status.
unfoldable pub response_status : RdapError → ℕ
response_status e =
    if leb 100 (status_code e) && ltb (status_code e) 1000 then status_code e else 500

unfoldable pub error_code : RdapError → Text
error_code Error.invalid_input = text "invalid_input"
error_code (Error.invalid_url url) = text "invalid_input"
error_code (Error.ssrf_blocked url) = text "forbidden"
error_code (Error.insecure_scheme scheme) = text "forbidden"
error_code (Error.no_server_found query) = text "not_found"
error_code (Error.http_status status url) =
    if status == 404 then text "not_found" else text "upstream_error"
error_code (Error.timeout millis url) = text "timeout"
error_code Error.network = text "upstream_error"
error_code (Error.bootstrap_fetch url source) = text "upstream_error"
error_code (Error.rate_limited host wait) = text "rate_limited"
error_code (Error.circuit_open origin) = text "upstream_unavailable"
error_code Error.parse_error = text "internal_error"
error_code Error.missing_object_class = text "internal_error"
error_code (Error.unknown_object_class class) = text "internal_error"
error_code Error.cache = text "internal_error"

abbrev pub max_batch_size : ℕ
max_batch_size = 100

pub record BatchRequest : Type 0 where
  pub queries : List Text
  pub concurrency : Option ℕ

-- The text of an error is left out.
pub record BatchDomainResult : Type 0 where
  pub domain : Text
  pub available : Bool
  pub expires_at : Option Text
  pub error : Option RdapError

-- Only queries for domains are submitted; any other response is unreachable.
unfoldable pub item_for : Text → BatchItemResult → Option BatchDomainResult
item_for name (answered (RdapResponse.domain response)) = some (record {
  domain = name;
  available = false;
  expires_at = expiration_date response;
  error = none;
})
item_for name (answered (RdapResponse.ip response)) = none
item_for name (answered (RdapResponse.asn response)) = none
item_for name (answered (RdapResponse.nameserver response)) = none
item_for name (failed e) = some (record {
  domain = name;
  available = elim e.category [ not_found ↦ true | _ ↦ false ];
  expires_at = none;
  error = elim e.category [ not_found ↦ none | _ ↦ some e.source ];
})

abbrev pub with_item :
    Option BatchDomainResult → Option (List BatchDomainResult) → Option (List BatchDomainResult)
with_item none rest = none
with_item (some item) none = none
with_item (some item) (some others) = some (item ∷ others)

-- `name_iter.next().unwrap_or_default()`.
abbrev next_name : List Text → Text
next_name [] = []
next_name (name ∷ names) = name

abbrev names_left : List Text → List Text
names_left [] = []
names_left (name ∷ names) = names

-- The loop over the stream, each result with the next name; `none` for a panic.
unfoldable pub items : List Text → List BatchItemResult → Option (List BatchDomainResult)
items names [] = some []
items names (r ∷ results) =
    with_item (item_for (next_name names) r) (items (names_left names) results)

abbrev made : List Text → Option (List BatchItemResult) → Option (List BatchDomainResult)
made names none = none
made names (some results) = items names results

-- The handler reads the stream to its end.
unfoldable pub batch_lookup :
    Runtime → BatchRequest → Result RdapError (Option (List BatchDomainResult))
batch_lookup x request = elim request.queries [
  | [] ↦ err Error.invalid_input
  | q ∷ qs ↦
      if ltb max_batch_size (length (q ∷ qs))
      then err Error.invalid_input
      else (let concurrency = unwrap_or (map_some (min 50) request.concurrency) 10 in
          let config : BatchConfig = record {
            concurrency = concurrency;
            ordered = true;
            buffer = 64;
          } in
          ok (made (q ∷ qs) (run_stream x (λ place. true) (map BatchQuery.domain (q ∷ qs)) config)))
]

module _ (w : World) (p : Parts) where
  -- The response of one kind, tagged.
  abbrev answer :
      {A : Type 0}
      → (A → RdapResponse)
      → Result RdapError A × State
      → Result RdapError RdapResponse × State
  answer tag (r, s) = (r >>= λ a. ok (tag a), s)

  unfoldable pub rdap_lookup : Text → Text → State → Result RdapError RdapResponse × State
  rdap_lookup kind query s =
      if text_eq kind (text "domain")
      then answer RdapResponse.domain (Client.domain w p query s)
      else if text_eq kind (text "ip")
      then answer RdapResponse.ip (Client.ip w p query s)
      else if text_eq kind (text "asn")
      then answer RdapResponse.asn (Client.asn w p query s)
      else if text_eq kind (text "nameserver")
      then answer RdapResponse.nameserver (Client.nameserver w p query s)
      else (err Error.invalid_input, s)

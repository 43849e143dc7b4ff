-- ===== src/Batch.antt =====
-- crates/rdap-batch/src/lib.rs: one query of a batch, the category of its error, and the stream of the
-- results of many.
mod Tests
pub mod Categories
pub mod Numbers
use rdapify.Base.{
  ℕ, suc, max, List, [], ◌∷◌, Bool, true, false, Option, none, some, ◌==◌, if◌then◌else◌,
}
use rdapify.Base.Text.{Text}
use rdapify.Base.Text.Number.{print_unsigned}
use rdapify.Base.Result.{Result, ok, err, ◌>>=◌}
use rdapify.Net.{IpAddr}
use rdapify.Types.Error as Error
use rdapify.Types.Error.{RdapError}
use rdapify.Types.Response.{DomainResponse, IpResponse, AsnResponse, NameserverResponse}
use rdapify.Client.{Parts, State, World}
use rdapify.Client.Queries as Client

-- The number is an `u32`.
pub data BatchQuery : Type 0 where
  domain : Text → BatchQuery
  ip : IpAddr → BatchQuery
  asn : ℕ → BatchQuery
  nameserver : Text → BatchQuery

pub data RdapResponse : Type 0 where
  domain : DomainResponse → RdapResponse
  ip : IpResponse → RdapResponse
  asn : AsnResponse → RdapResponse
  nameserver : NameserverResponse → RdapResponse

pub data ErrorCategory : Type 0 where
  retryable not_found invalid_input rate_limited fatal : ErrorCategory

pub record BatchError : Type 0 where
  pub source : RdapError
  pub category : ErrorCategory

pub data BatchItemResult : Type 0 where
  answered : RdapResponse → BatchItemResult
  failed : BatchError → BatchItemResult

unfoldable pub category_of : RdapError → ErrorCategory
category_of (Error.timeout millis url) = retryable
category_of Error.network = retryable
category_of (Error.rate_limited host wait) = rate_limited
category_of (Error.http_status status url) = if status == 404 then not_found else fatal
category_of (Error.no_server_found query) = not_found
category_of Error.invalid_input = invalid_input
category_of (Error.invalid_url url) = invalid_input
category_of (Error.insecure_scheme scheme) = invalid_input
category_of _ = fatal

unfoldable pub classify_error : RdapError → BatchError
classify_error e = record { source = e; category = category_of e }

abbrev pub item_of : Result RdapError RdapResponse → BatchItemResult
item_of (ok response) = answered response
item_of (err e) = failed (classify_error e)

abbrev tagged :
    {A : Type 0} → (A → RdapResponse) → Result RdapError A × State → BatchItemResult × State
tagged tag (r, s) = (item_of (r >>= λ a. ok (tag a)), s)

-- The client's answer to one query, with its error caught.
unfoldable pub process_query : World → Parts → BatchQuery → State → BatchItemResult × State
process_query w p (domain d) s = tagged RdapResponse.domain (Client.domain w p d s)
process_query w p (ip a) s = tagged RdapResponse.ip (Client.ip w p (w.print_addr a) s)
process_query w p (asn n) s = tagged RdapResponse.asn (Client.asn w p (print_unsigned n) s)
process_query w p (nameserver ns) s = tagged RdapResponse.nameserver (Client.nameserver w p ns s)

pub record BatchConfig : Type 0 where
  pub concurrency : ℕ
  pub ordered : Bool
  pub buffer : ℕ

abbrev pub default_config : BatchConfig
default_config = record { concurrency = 50; ordered = false; buffer = 64 }

-- What the executor runs on: the result of the query at a place, which runs among the others, and the
-- two adapters of the `futures` crate, from the results by their places in the stream to the order in
-- which they come out, with so many at a time.
pub record Runtime : Type 0 where
  pub ran : ℕ → BatchQuery → BatchItemResult
  pub buffered : ℕ → List BatchItemResult → List BatchItemResult
  pub buffer_unordered : ℕ → List BatchItemResult → List BatchItemResult

abbrev pub all_ran : Runtime → ℕ → List BatchQuery → List BatchItemResult
all_ran x place [] = []
all_ran x place (query ∷ queries) = x.ran place query ∷ all_ran x (suc place) queries

-- The sends, until one does not find the receiver.
unfoldable pub sent : (ℕ → Bool) → ℕ → List BatchItemResult → List BatchItemResult
sent sends place [] = []
sent sends place (r ∷ rs) =
    let rest = sent sends (suc place) rs in if sends place then r ∷ rest else []

-- The results put into the channel, with `none` for the panic of a channel that holds nothing.
unfoldable pub run_stream :
    Runtime → (ℕ → Bool) → List BatchQuery → BatchConfig → Option (List BatchItemResult)
run_stream x sends queries config =
    let concurrency = max config.concurrency 1 in
    let results = all_ran x 0 queries in
    if config.buffer == 0
    then none
    else if config.ordered
    then some (sent sends 0 (x.buffered concurrency results))
    else some (sent sends 0 (x.buffer_unordered concurrency results))

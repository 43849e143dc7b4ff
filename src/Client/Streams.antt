-- ===== src/Client/Streams.antt =====
-- crates/rdapify-client/src/lib.rs: the four streams, with their events (crates/rdap-stream/src/lib.rs).
mod Tests
pub mod Order
use rdapify.Base.{ℕ, suc, Bool, Option, none, some, List, [], ◌∷◌, ◌==◌, take, if◌then◌else◌}
use rdapify.Base.Text.{Text}
use rdapify.Base.Result.{Result, ok, err}
use rdapify.Types.Error.{RdapError}
use rdapify.Types.Response.{DomainResponse, IpResponse, AsnResponse, NameserverResponse}
use rdapify.Client.{Parts, State, World}
use rdapify.Client.Queries as Queries

-- The four types of events differ in their response alone.
pub data Event (Response : Type 0) : Type 0 where
  result : Response → Event Response
  error : Text → RdapError → Event Response

abbrev pub DomainEvent : Type 0
DomainEvent = Event DomainResponse

abbrev pub IpEvent : Type 0
IpEvent = Event IpResponse

abbrev pub AsnEvent : Type 0
AsnEvent = Event AsnResponse

abbrev pub NameserverEvent : Type 0
NameserverEvent = Event NameserverResponse

pub record StreamConfig : Type 0 where
  pub buffer_size : ℕ

abbrev pub default_config : StreamConfig
default_config = record { buffer_size = 32 }

abbrev pub event_of : {Response : Type 0} → Text → Result RdapError Response → Event Response
event_of query (ok response) = result response
event_of query (err e) = error query e

-- The task of a stream: the events that it puts into the channel, and the state when it ends. Whether
-- the send of an event finds the receiver still there depends on its place.
unfoldable pub produce :
    {Response : Type 0}
    → (Text → State → Result RdapError Response × State)
    → (ℕ → Bool)
    → ℕ
    → List Text
    → State
    → List (Event Response) × State
produce query sends place [] s = ([], s)
produce query sends place (name ∷ names) s =
    let (r, s') = query name s in
    let (events, end) = produce query sends (suc place) names s' in
    if sends place then (event_of name r ∷ events, end) else ([], s')

-- The consumer takes so many events out of the channel; what is left there when it drops the stream is
-- lost to it. `mpsc::channel` panics, with `none` here, if it is to hold nothing.
abbrev pub on_channel :
    {Response : Type 0}
    → StreamConfig
    → ℕ
    → List (Event Response) × State
    → Option (List (Event Response) × State)
on_channel config taken (events, s) =
    if config.buffer_size == 0 then none else some (take taken events, s)

-- How the channel goes: which sends find the receiver still there, and how many events it takes.
module _ (w : World) (p : Parts) (sends : ℕ → Bool) (taken : ℕ) where
  unfoldable pub stream_domain :
      List Text → StreamConfig → State → Option (List DomainEvent × State)
  stream_domain names config s =
      on_channel config taken (produce (Queries.domain w p) sends 0 names s)

  unfoldable pub stream_ip : List Text → StreamConfig → State → Option (List IpEvent × State)
  stream_ip addresses config s =
      on_channel config taken (produce (Queries.ip w p) sends 0 addresses s)

  unfoldable pub stream_asn : List Text → StreamConfig → State → Option (List AsnEvent × State)
  stream_asn asns config s = on_channel config taken (produce (Queries.asn w p) sends 0 asns s)

  unfoldable pub stream_nameserver :
      List Text → StreamConfig → State → Option (List NameserverEvent × State)
  stream_nameserver nameservers config s =
      on_channel config taken (produce (Queries.nameserver w p) sends 0 nameservers s)

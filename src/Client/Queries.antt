-- ===== src/Client/Queries.antt =====
-- crates/rdapify-client/src/lib.rs: the five query methods.
pub mod Keys
pub mod Spelling
use rdapify.Base.{ℕ, ◌^◌, Bool, true, false, Option, none, some, List, [], ◌∷◌, ◌++◌, if◌then◌else◌}
use rdapify.Base.Text.{Text, text, is_empty}
use rdapify.Base.Text.Parts.{trim_end_matches, trim_start_pair}
use rdapify.Base.Text.Number.{parse_unsigned, print_unsigned}
use rdapify.Base.Result.{Result, ok, err, ◌>>=◌}
use rdapify.Net.{IpAddr}
use rdapify.Net.IpAddr.{v4, v6}
use rdapify.Types.Error.{RdapError, invalid_input}
use rdapify.Types.Response.{
  DomainResponse, IpResponse, AsnResponse, NameserverResponse, EntityResponse,
}
use rdapify.Security.Http.{Trace}
use rdapify.Core.Validation.{Value}
use rdapify.Core.Normalizer as Normalizer
use rdapify.Bootstrap.Resolver as Resolver
use rdapify.Bootstrap.Resolver.{Bootstrap}
use rdapify.Client as Client
use rdapify.Client.{QueryKind, Parts, State, World, cache_key, normalise_domain, outside}
use rdapify.Client.Lookup.{Found, fetch_with_cache}

-- `format!("{}/<path>/{}", server.trim_end_matches('/'), item)`
unfoldable pub query_url : Text → Text → Text → Text
query_url server path item =
    trim_end_matches 47 server ++ (text "/" ++ (path ++ (text "/" ++ item)))

-- The answer of the bootstrap, put back into the state.
abbrev pub Served : Type 0
Served = Result RdapError Text × State

abbrev pub resolved : State → Result RdapError Text × (Bootstrap × Trace) → Served
resolved s (r, (b', trace)) =
    (r, record s { bootstrap = b'; fetch = record s.fetch { trace = trace } })

-- `str::parse` after the prefixes.
unfoldable pub parse_asn : Text → Option ℕ
parse_asn typed = parse_unsigned (2 ^ 32) (trim_start_pair 97 115 (trim_start_pair 65 83 typed))

module _ (w : World) (p : Parts) where
  -- The last two steps of each method: the document of the server, and its normal form.
  unfoldable pub fetched :
      {A : Type 0}
      → (Text → Bool → Value → Result RdapError A)
      → Found × State
      → Result RdapError A × State
  fetched normal (r, s) =
      (r >>= λ (found : Value × Bool). normal (w.queried_at s.fetch.trace) found.1 found.0, s)

  unfoldable pub at_server :
      {A : Type 0}
      → (Text → Text → Bool → Value → Result RdapError A)
      → QueryKind
      → Text
      → (Text → Text)
      → Served
      → Result RdapError A × State
  unfolding fetched
  at_server normal kind key url (err e, s) = (err e, s)
  at_server normal kind key url (ok server, s) =
      fetched (λ now. normal now server) (fetch_with_cache w p key (url server) kind s)

  abbrev pub for_domain : Text → State → Served
  for_domain name s = resolved s (Resolver.for_domain (outside w) s.bootstrap name s.fetch.trace)

  unfoldable pub named :
      {A : Type 0}
      → (Text → Text → Text → Bool → Value → Result RdapError A)
      → QueryKind
      → Text
      → Result RdapError Text
      → State
      → Result RdapError A × State
  unfolding at_server
  named normal kind path (err e) s = (err e, s)
  named normal kind path (ok name) s =
      at_server (λ now server cached. normal now server name cached) kind (cache_key kind name)
        (λ server. query_url server path name) (for_domain name s)

  unfoldable pub domain : Text → State → Result RdapError DomainResponse × State
  unfolding named
  domain typed s =
      named (λ now server name cached. Normalizer.domain now server cached name) QueryKind.domain
        (text "domain") (normalise_domain w.domain_to_ascii typed) s

  unfoldable pub nameserver : Text → State → Result RdapError NameserverResponse × State
  unfolding named
  nameserver typed s =
      named (λ now server name cached. Normalizer.nameserver now server cached name)
        QueryKind.nameserver (text "nameserver") (normalise_domain w.domain_to_ascii typed) s

  unfoldable pub for_addr : Text → IpAddr → State → Served
  for_addr typed (v4 a) s =
      resolved s (Resolver.for_ipv4 (outside w) s.bootstrap typed s.fetch.trace)
  for_addr typed (v6 a) s =
      resolved s (Resolver.for_ipv6 (outside w) s.bootstrap typed s.fetch.trace)

  unfoldable pub at_addr : Text → Option IpAddr → State → Result RdapError IpResponse × State
  unfolding at_server for_addr
  at_addr typed none s = (err invalid_input, s)
  at_addr typed (some addr) s =
      at_server (λ now server cached. Normalizer.ip now server cached typed) QueryKind.ip
        (cache_key QueryKind.ip (w.print_addr addr)) (λ server. query_url server (text "ip") typed)
        (for_addr typed addr s)

  unfoldable pub ip : Text → State → Result RdapError IpResponse × State
  unfolding at_addr
  ip typed s = at_addr typed (w.parse_addr typed) s

  unfoldable pub numbered : Option ℕ → State → Result RdapError AsnResponse × State
  unfolding at_server
  numbered none s = (err invalid_input, s)
  numbered (some n) s =
      at_server (λ now server cached. Normalizer.asn now server cached n) QueryKind.asn
        (cache_key QueryKind.asn (print_unsigned n))
        (λ server. query_url server (text "autnum") (print_unsigned n))
        (resolved s (Resolver.for_asn (outside w) s.bootstrap n s.fetch.trace))

  unfoldable pub asn : Text → State → Result RdapError AsnResponse × State
  unfolding numbered
  asn typed s = numbered (parse_asn typed) s

  unfoldable pub entity : Text → Text → State → Result RdapError EntityResponse × State
  unfolding at_server
  entity handle server_url s =
      if is_empty handle
      then (err invalid_input, s)
      else if is_empty server_url
      then (err invalid_input, s)
      else at_server (λ now server cached. Normalizer.entity now server cached handle)
          QueryKind.entity
          (cache_key QueryKind.entity (handle ++ (text "@" ++ trim_end_matches 47 server_url)))
          (λ server. query_url server (text "entity") handle) (ok server_url, s)

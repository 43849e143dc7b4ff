-- ===== src/Client/Session.antt =====
-- crates/rdapify-client/src/lib.rs: any sequence of queries and background refreshes of one client.
pub mod Safe
pub mod Stored
use rdapify.Base.{
  ℕ, zero, suc, ◌≡◌, ◌⊎◌, Bool, true, false, Option, none, some, List, [], ◌∷◌, ◌++◌, inl, inr,
  Bool-cases, if◌then◌else◌, if-both,
}
use rdapify.Base.Text.{Text, text, is_empty}
use rdapify.Base.Result.{Result, ok, err}
use rdapify.Net.{IpAddr}
use rdapify.Net.IpAddr.{v4, v6}
use rdapify.Types.Error.{RdapError}
use rdapify.Bootstrap.Resolver as Resolver
use rdapify.Base.Text.Parts.{trim_end_matches}
use rdapify.Base.Text.Number.{print_unsigned}
use rdapify.Core.Normalizer as Normalizer
use rdapify.Core.Validation.{Value}
use rdapify.Client.{
  QueryKind, Parts, State, World, Refresh, clear_cache, outside, normalise_domain, cache_key,
}
use rdapify.Client.Lookup.{Found, fetch_with_cache, run_refresh}
use rdapify.Client.Queries as Queries
use rdapify.Client.Queries.{
  resolved, Served, fetched, at_server, named, for_domain, for_addr, at_addr, numbered, parse_asn,
}

pub data Op : Type 0 where
  domain ip asn nameserver : Text → Op
  entity : Text → Text → Op
  -- a spawned task runs to its end: the one at this place
  refresh : ℕ → Op
  clear : Op

-- The task at a place, and the others.
unfoldable pub pick : ℕ → List Refresh → Option (Refresh × List Refresh)
pick n [] = none
pick zero (t ∷ ts) = some (t, ts)
pick (suc n) (t ∷ ts) = elim (pick n ts) [ none ↦ none | some (u, others) ↦ some (u, t ∷ others) ]

module _ (w : World) (p : Parts) where
  abbrev pub refreshed : Option (Refresh × List Refresh) → State → State
  refreshed none s = s
  refreshed (some (task, others)) s = run_refresh w p task (record s { spawned = others })

  unfoldable pub step : Op → State → State
  step (domain typed) s = (Queries.domain w p typed s).1
  step (ip typed) s = (Queries.ip w p typed s).1
  step (asn typed) s = (Queries.asn w p typed s).1
  step (nameserver typed) s = (Queries.nameserver w p typed s).1
  step (entity handle server) s = (Queries.entity w p handle server s).1
  step (refresh n) s = refreshed (pick n s.spawned) s
  step clear s = clear_cache s

  unfoldable pub run : List Op → State → State
  run [] s = s
  run (op ∷ ops) s = run ops (step op s)

  -- What the parts of a query keep, a session keeps.
  module _ (I : State → Type 0)
      (by_domain : (name : Text) (s : State) → I s → I (for_domain w p name s).1)
      (by_addr : (typed : Text) (a : IpAddr) (s : State) → I s → I (for_addr w p typed a s).1)
      (by_asn : (n : ℕ) (s : State)
        → I s
        → I (resolved s (Resolver.for_asn (outside w) s.bootstrap n s.fetch.trace)).1)
      (by_lookup : (key url : Text) (kind : QueryKind) (s : State)
        → I s
        → I (fetch_with_cache w p key url kind s).1)
      (by_refresh : (n : ℕ) (s : State) → I s → I (refreshed (pick n s.spawned) s))
      (by_clear : (s : State) → I s → I (clear_cache s)) where
    fetched_keeps :
        {A : Type 0} (normal : Text → Bool → Value → Result RdapError A) (o : Found × State)
        → I o.1
        → I (fetched w p normal o).1
    unfolding fetched
    fetched_keeps normal (r, s) i = i

    at_server_keeps :
        {A : Type 0} (normal : Text → Text → Bool → Value → Result RdapError A) (kind : QueryKind)
        (key : Text) (url : Text → Text) (o : Served)
        → I o.1
        → I (at_server w p normal kind key url o).1
    unfolding at_server
    at_server_keeps normal kind key url (err e, s) i = i
    at_server_keeps normal kind key url (ok server, s) i =
        fetched_keeps (λ now. normal now server) (fetch_with_cache w p key (url server) kind s)
          (by_lookup key (url server) kind s i)

    named_keeps :
        {A : Type 0} (normal : Text → Text → Text → Bool → Value → Result RdapError A)
        (kind : QueryKind) (path : Text) (r : Result RdapError Text) (s : State)
        → I s
        → I (named w p normal kind path r s).1
    unfolding named
    named_keeps normal kind path (err e) s i = i
    named_keeps normal kind path (ok name) s i =
        at_server_keeps (λ now server cached. normal now server name cached) kind
          (cache_key kind name) (λ server. Queries.query_url server path name)
          (for_domain w p name s) (by_domain name s i)

    at_addr_keeps :
        (typed : Text) (addr : Option IpAddr) (s : State) → I s → I (at_addr w p typed addr s).1
    unfolding at_addr
    at_addr_keeps typed none s i = i
    at_addr_keeps typed (some addr) s i =
        at_server_keeps (λ now server cached. Normalizer.ip now server cached typed) QueryKind.ip
          (cache_key QueryKind.ip (w.print_addr addr))
          (λ server. Queries.query_url server (text "ip") typed) (for_addr w p typed addr s)
          (by_addr typed addr s i)

    numbered_keeps : (n : Option ℕ) (s : State) → I s → I (numbered w p n s).1
    unfolding numbered
    numbered_keeps none s i = i
    numbered_keeps (some n) s i =
        at_server_keeps (λ now server cached. Normalizer.asn now server cached n) QueryKind.asn
          (cache_key QueryKind.asn (print_unsigned n))
          (λ server. Queries.query_url server (text "autnum") (print_unsigned n))
          (resolved s (Resolver.for_asn (outside w) s.bootstrap n s.fetch.trace)) (by_asn n s i)

    entity_keeps :
        (handle server : Text) (s : State) → I s → I (Queries.entity w p handle server s).1
    unfolding Queries.entity
    entity_keeps handle server s i =
        if-both (λ (o : Result _ _ × State). I o.1) (is_empty handle) _ _ (λ e. i)
          (λ e.
            if-both (λ (o : Result _ _ × State). I o.1) (is_empty server) _ _ (λ e'. i)
              (λ e'.
                at_server_keeps (λ now server cached. Normalizer.entity now server cached handle)
                  QueryKind.entity
                  (cache_key QueryKind.entity (handle ++ (text "@" ++ trim_end_matches 47 server)))
                  (λ url. Queries.query_url url (text "entity") handle) (ok server, s) i))

    step_keeps : (op : Op) (s : State) → I s → I (step op s)
    unfolding step Queries.domain Queries.ip Queries.asn Queries.nameserver
    step_keeps (domain typed) s i =
        named_keeps (λ now server name cached. Normalizer.domain now server cached name)
          QueryKind.domain (text "domain") (normalise_domain w.domain_to_ascii typed) s i
    step_keeps (ip typed) s i = at_addr_keeps typed (w.parse_addr typed) s i
    step_keeps (asn typed) s i = numbered_keeps (parse_asn typed) s i
    step_keeps (nameserver typed) s i =
        named_keeps (λ now server name cached. Normalizer.nameserver now server cached name)
          QueryKind.nameserver (text "nameserver") (normalise_domain w.domain_to_ascii typed) s i
    step_keeps (entity handle server) s i = entity_keeps handle server s i
    step_keeps (refresh n) s i = by_refresh n s i
    step_keeps clear s i = by_clear s i

    pub run_keeps : (ops : List Op) (s : State) → I s → I (run ops s)
    unfolding run
    run_keeps [] s i = i
    run_keeps (op ∷ ops) s i = run_keeps ops (step op s) (step_keeps op s i)

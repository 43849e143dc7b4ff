-- ===== src/Bootstrap/Resolver/Egress.antt =====
-- What the resolver sends, and what it keeps of it.
use rdapify.Base.{ℕ, ◌≡◌, true, Option, none, some, Option-cases, inl, inr}
use rdapify.Base.Text.{Text}
use rdapify.Base.Result.{Result, ok, err, Result-cases}
use rdapify.Net.{IpAddr}
use rdapify.Types.Error.{RdapError}
use rdapify.Security.Http.{Trace}
use rdapify.Security.Egress.Vetted.{Clean, secure_request-Clean}
use rdapify.Bootstrap.Data.{
  ResourceData, Resource, dns_file, ipv4_file, ipv6_file, asn_file, normalize_domain_input,
  longest_suffix,
}
use rdapify.Bootstrap.Resolver.{
  Outside, Bootstrap, send_secure, send, fetch_resource, fetch_and_cache, read_cache_if_fresh,
  get_resource, for_domain, named, in_index, stored, at_addr, for_ipv4, for_ipv6, for_asn,
}

module _ (w : Outside) where
  send-Clean :
      (b : Bootstrap) (url : Text) (trace : Trace)
      → b.secure_egress ≡ true
      → Clean trace
      → Clean (send w b url trace).1
  unfolding send
  send-Clean b url trace on c = rw on (elim (Option-cases (w.net.parse url)) [
    | inl e ↦ rw (e, send_secure) c
    | inr (parsed, e) ↦
        rw (e, send_secure) (secure_request-Clean w.net parsed b.egress_policy trace c)
  ])

  fetch_resource-Clean :
      (b : Bootstrap) (resource : Resource) (trace : Trace)
      → b.secure_egress ≡ true
      → Clean trace
      → Clean (fetch_resource w b resource trace).1
  unfolding fetch_resource
  fetch_resource-Clean b resource trace on c = send-Clean b _ trace on c

  stored-Clean :
      (b : Bootstrap) (resource : Resource) (r : Result RdapError ResourceData) (trace : Trace)
      → Clean trace
      → Clean (stored w b resource (r, trace)).1.1
  stored-Clean b resource (ok contents) trace c = c
  stored-Clean b resource (err e) trace c = c

  get_resource-Clean :
      (b : Bootstrap) (resource : Resource) (trace : Trace)
      → b.secure_egress ≡ true
      → Clean trace
      → Clean (get_resource w b resource trace).1.1
  unfolding get_resource fetch_and_cache
  get_resource-Clean b resource trace on c =
      elim (Option-cases (read_cache_if_fresh w b resource (w.clock trace))) [
        | inr (contents, e) ↦ rw (e, get_resource) c
        | inl e ↦
            rw (e, get_resource)
              (stored-Clean b resource (fetch_resource w b resource trace).0
                (fetch_resource w b resource trace).1 (fetch_resource-Clean b resource trace on c))
      ]

  -- While secure egress is on, a query for a domain keeps a clean trace clean: all its requests go
  -- through the security pipeline, to safe URLs, each directly after a lookup of the URL's host text, if
  -- it has one, that gave an address and no blocked one.
  pub for_domain-Clean :
      (b : Bootstrap) (domain : Text) (trace : Trace)
      → b.secure_egress ≡ true
      → Clean trace
      → Clean (for_domain w b domain trace).1.1
  unfolding for_domain named in_index
  for_domain-Clean b domain trace on c = elim (Result-cases (normalize_domain_input domain)) [
    | inr (x, e) ↦ rw (e, named) c
    | inl (normalized, e) ↦ elim (Option-cases (longest_suffix b.custom_servers normalized)) [
      | inr (server, found) ↦ rw (e, found, named) c
      | inl found ↦ rw (e, found, named) (get_resource-Clean b dns_file trace on c)
    ]
  ]

  at_addr-Clean :
      (b : Bootstrap) (resource : Resource) (typed : Text) (addr : Option IpAddr) (trace : Trace)
      → b.secure_egress ≡ true
      → Clean trace
      → Clean (at_addr w b resource typed addr trace).1.1
  unfolding at_addr
  at_addr-Clean b resource typed none trace on c = c
  at_addr-Clean b resource typed (some addr) trace on c = get_resource-Clean b resource trace on c

  pub for_ipv4-Clean :
      (b : Bootstrap) (typed : Text) (trace : Trace)
      → b.secure_egress ≡ true
      → Clean trace
      → Clean (for_ipv4 w b typed trace).1.1
  unfolding for_ipv4
  for_ipv4-Clean b typed trace on c =
      at_addr-Clean b ipv4_file typed (w.parse_addr typed) trace on c

  pub for_ipv6-Clean :
      (b : Bootstrap) (typed : Text) (trace : Trace)
      → b.secure_egress ≡ true
      → Clean trace
      → Clean (for_ipv6 w b typed trace).1.1
  unfolding for_ipv6
  for_ipv6-Clean b typed trace on c =
      at_addr-Clean b ipv6_file typed (w.parse_addr typed) trace on c

  pub for_asn-Clean :
      (b : Bootstrap) (n : ℕ) (trace : Trace)
      → b.secure_egress ≡ true
      → Clean trace
      → Clean (for_asn w b n trace).1.1
  unfolding for_asn
  for_asn-Clean b n trace on c = get_resource-Clean b asn_file trace on c

-- ===== src/Bootstrap/Resolver/Posture.antt =====
-- crates/rdap-bootstrap/src/lib.rs: queries change the cached files alone.
use rdapify.Base.{ℕ, ◌≡◌, refl, Option, none, some, Option-cases, inl, inr}
use rdapify.Base.Text.{Text}
use rdapify.Base.Result.{Result, ok, err, Result-cases}
use rdapify.Net.{IpAddr}
use rdapify.Types.Error.{RdapError}
use rdapify.Security.Http.{Trace}
use rdapify.Bootstrap.Data.{
  ResourceData, Resource, dns_file, ipv4_file, ipv6_file, asn_file, normalize_domain_input,
  longest_suffix,
}
use rdapify.Bootstrap.Resolver.{
  Outside, Bootstrap, fetch_resource, fetch_and_cache, read_cache_if_fresh, get_resource,
  for_domain, named, in_index, stored, at_addr, for_ipv4, for_ipv6, for_asn,
}

module _ (w : Outside) where
  stored_posture :
      (b : Bootstrap) (resource : Resource) (o : Result RdapError ResourceData × Trace)
      → (stored w b resource o).1.0.secure_egress ≡ b.secure_egress
  stored_posture b resource (ok contents, trace) = refl
  stored_posture b resource (err e, trace) = refl

  get_resource_posture :
      (b : Bootstrap) (resource : Resource) (trace : Trace)
      → (get_resource w b resource trace).1.0.secure_egress ≡ b.secure_egress
  unfolding get_resource fetch_and_cache
  get_resource_posture b resource trace =
      elim (Option-cases (read_cache_if_fresh w b resource (w.clock trace))) [
        | inr (contents, e) ↦ rw (e, get_resource) refl
        | inl e ↦
            rw (e, get_resource) (stored_posture b resource (fetch_resource w b resource trace))
      ]

  pub for_domain_posture :
      (b : Bootstrap) (domain : Text) (trace : Trace)
      → (for_domain w b domain trace).1.0.secure_egress ≡ b.secure_egress
  unfolding for_domain named in_index
  for_domain_posture b domain trace = elim (Result-cases (normalize_domain_input domain)) [
    | inr (x, e) ↦ rw (e, named) refl
    | inl (normalized, e) ↦ elim (Option-cases (longest_suffix b.custom_servers normalized)) [
      | inr (server, found) ↦ rw (e, found, named) refl
      | inl found ↦ rw (e, found, named) (get_resource_posture b dns_file trace)
    ]
  ]

  at_addr_posture :
      (b : Bootstrap) (resource : Resource) (typed : Text) (addr : Option IpAddr) (trace : Trace)
      → (at_addr w b resource typed addr trace).1.0.secure_egress ≡ b.secure_egress
  unfolding at_addr
  at_addr_posture b resource typed none trace = refl
  at_addr_posture b resource typed (some addr) trace = get_resource_posture b resource trace

  pub for_ipv4_posture :
      (b : Bootstrap) (typed : Text) (trace : Trace)
      → (for_ipv4 w b typed trace).1.0.secure_egress ≡ b.secure_egress
  unfolding for_ipv4
  for_ipv4_posture b typed trace = at_addr_posture b ipv4_file typed (w.parse_addr typed) trace

  pub for_ipv6_posture :
      (b : Bootstrap) (typed : Text) (trace : Trace)
      → (for_ipv6 w b typed trace).1.0.secure_egress ≡ b.secure_egress
  unfolding for_ipv6
  for_ipv6_posture b typed trace = at_addr_posture b ipv6_file typed (w.parse_addr typed) trace

  pub for_asn_posture :
      (b : Bootstrap) (n : ℕ) (trace : Trace)
      → (for_asn w b n trace).1.0.secure_egress ≡ b.secure_egress
  unfolding for_asn
  for_asn_posture b n trace = get_resource_posture b asn_file trace

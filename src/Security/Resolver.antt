-- ===== src/Security/Resolver.antt =====
-- crates/rdap-security/src/resolver.rs: the resolver that `reqwest` connects through. A socket address
-- is its IP address here; `reqwest` replaces the port.
use rdapify.Base.{
  ◌≡◌, ◌≢◌, ◌↔◌, ap, sym, subst, arith, Option, none, some, List, [], ◌∷◌, All, inl, inr,
}
use rdapify.Base.Text.{Text}
use rdapify.Base.Result.{Result, ok, err, ◌>>=◌, Result-cases}
use rdapify.Net.{IpAddr}
use rdapify.Security.Error.{SecurityError, dns_resolution_failed}
use rdapify.Security.Url.{validate_resolved_ips}
use rdapify.Security.Url.Resolved.{IsAllowed, validate_resolved_ips_iff}
use rdapify.Security.Http.{Trace, looked_up, Environment}

connectable : Option (List IpAddr) → Result SecurityError (List IpAddr)
connectable none = err dns_resolution_failed
connectable (some []) = err dns_resolution_failed
connectable (some (ip ∷ ips)) = validate_resolved_ips (ip ∷ ips) >>= λ _. ok (ip ∷ ips)

unfoldable pub resolve : Environment → Text → Trace → Result SecurityError (List IpAddr) × Trace
unfolding connectable
resolve env name trace =
    let resolved = env.lookup_host trace name in
    (connectable resolved, looked_up name resolved ∷ trace)

connectable_iff :
    (o : Option (List IpAddr)) (ips : List IpAddr)
    → (connectable o ≡ ok ips) ↔ ((o ≡ some ips) × (ips ≢ []) × All IsAllowed ips)
unfolding connectable
connectable_iff none ips = (λ h. cc, λ p. cc (p.0))
connectable_iff (some []) ips = (λ h. cc, λ (e, n, a). absurd (n (cc e)))
connectable_iff (some (ip ∷ rest)) ips = (
  λ h. elim (Result-cases (validate_resolved_ips (ip ∷ rest))) [
    | inl (_, e) ↦
        let same : ip ∷ rest ≡ ips = ground arith in
        (
          ap some same,
          λ n. cc (same, n),
          subst (All IsAllowed) same ((validate_resolved_ips_iff (ip ∷ rest)).0 e),
        )
    | inr (x, e) ↦ absurd (ground arith)
  ],
  λ (e, n, a).
      let same : ip ∷ rest ≡ ips = cc e in
      let passed = (validate_resolved_ips_iff (ip ∷ rest)).1 (subst (All IsAllowed) (sym same) a) in
      rw passed (ap ok same),
)

-- The client connects exactly to the addresses that the system resolver gives, and only if there is
-- one and none of them is blocked.
pub resolve_iff :
    (env : Environment) (name : Text) (trace : Trace) (ips : List IpAddr)
    → ((resolve env name trace).0 ≡ ok ips)
      ↔ ((env.lookup_host trace name ≡ some ips) × (ips ≢ []) × All IsAllowed ips)
unfolding resolve
resolve_iff env name trace ips = connectable_iff (env.lookup_host trace name) ips

-- ===== src/Security/Egress/Vetted.antt =====
-- crates/rdap-security/src/lib.rs: what precedes each request of `secure_request`.
use rdapify.Base.{
  ℕ, zero, suc, ◌≡◌, ◌≢◌, refl, ◌&&◌, not, Option, none, some, List, [], ◌∷◌, All, Bool-cases,
  Option-cases, inl, inr,
}
use rdapify.Base.Text.{Text, text, text_eq}
use rdapify.Base.Result.{Result, ok, err, ◌>>=◌, Result-cases}
use rdapify.Net.{IpAddr}
use rdapify.Security.Error.{SecurityError}
use rdapify.Security.Url.{Url, validate_url, validate_resolved_ips}
use rdapify.Security.Url.Safe.{IsSafeUrl, validate_url_iff}
use rdapify.Security.Url.Resolved.{IsAllowed, validate_resolved_ips_iff}
use rdapify.Security.Http.{
  Response, Sent, timed_out, failed, answered, Trace, looked_up, sent, sent_unchecked, Environment,
  HttpSecurityPolicy,
}
use rdapify.Security.Egress.{
  Next, Outcome, target, proceed, vet_after, resolved, resolve_host, vet_host, redirect, receive,
  follow, validate_redirect, secure_request,
}

-- The last thing that happened is a lookup of the host, and no address that it gave is blocked. A
-- URL without a host text has nothing to look up.
abbrev pub Vetted : Option Text → Trace → Type 0
Vetted none trace = Unit
Vetted (some host) (looked_up h (some ips) ∷ trace) = (h ≡ host) × (ips ≢ []) × All IsAllowed ips
Vetted (some host) _ = ⊥

-- Every request in the trace went through the pipeline, to a safe URL whose host had just been vetted.
abbrev pub Clean : Trace → Type 0
Clean [] = Unit
Clean (looked_up h ips ∷ trace) = Clean trace
Clean (sent url ∷ trace) = IsSafeUrl url × Vetted url.host_str trace × Clean trace
Clean (sent_unchecked url ∷ trace) = ⊥

module _ (env : Environment) where
  vet_host-Clean :
      (host : Option Text) (trace : Trace) → Clean trace → Clean (vet_host env host trace).1
  unfolding vet_host resolve_host
  vet_host-Clean none trace c = c
  vet_host-Clean (some host) trace c = c

  resolved-Vetted :
      (host : Text) (addrs : Option (List IpAddr)) (trace : Trace)
      → (resolved addrs >>= validate_resolved_ips) ≡ ok tt
      → Vetted (some host) (looked_up host addrs ∷ trace)
  unfolding resolved
  resolved-Vetted host none trace h = cc
  resolved-Vetted host (some []) trace h = cc
  resolved-Vetted host (some (ip ∷ ips)) trace h =
      (refl, λ e. cc, (validate_resolved_ips_iff (ip ∷ ips)).0 h)

  vet_host-Vetted :
      (host : Option Text) (trace : Trace)
      → (vet_host env host trace).0 ≡ ok tt
      → Vetted host (vet_host env host trace).1
  unfolding vet_host resolve_host
  vet_host-Vetted none trace h = tt
  vet_host-Vetted (some host) trace h = resolved-Vetted host (env.lookup_host trace host) trace h

  -- The next round of the loop keeps the trace clean where it is given a vetted URL.
  abbrev Keeps : Next env → Type 0
  Keeps next =
      (url : Url) (trace : Trace)
      → IsSafeUrl url
      → Vetted url.host_str trace
      → Clean trace
      → Clean (next url trace).1

  proceed-Clean :
      (next : Next env) (url : Url) (r : Result SecurityError (Unit {0})) (trace : Trace)
      → Keeps next
      → IsSafeUrl url
      → (r ≡ ok tt → Vetted url.host_str trace)
      → Clean trace
      → Clean (proceed env next url (r, trace)).1
  proceed-Clean next url (ok _) trace k s v c = k url trace s (v refl) c
  proceed-Clean next url (err e) trace k s v c = c

  vet-Clean :
      (next : Next env) (url : Url) (trace : Trace)
      → Keeps next
      → Clean trace
      → Clean (proceed env next url (vet_after env (validate_url url) url trace)).1
  vet-Clean next url trace k c = elim (Result-cases (validate_url url)) [
    | inl (_, e) ↦ rw e (
        proceed-Clean next url (vet_host env url.host_str trace).0 _ k ((validate_url_iff url).0 e)
          (vet_host-Vetted url.host_str trace) (vet_host-Clean url.host_str trace c))
    | inr (x, e) ↦ rw e c
  ]

  redirect-Clean :
      (next : Next env) (url : Url) (response : Response) (trace : Trace)
      → Keeps next
      → Clean trace
      → Clean (redirect env next url response trace).1
  unfolding redirect validate_redirect
  redirect-Clean next url response trace k c =
      elim (Option-cases (target env url response.location)) [
        | inl e ↦ rw (e, redirect) c
        | inr (to, e) ↦ rw (e, redirect) (vet-Clean next to trace k c)
      ]

  receive-Clean :
      (on_redirect : Response → Trace → Outcome Response) (s : Sent) (trace : Trace)
      → ((response : Response) → Clean (on_redirect response trace).1)
      → Clean trace
      → Clean (receive env on_redirect s trace).1
  unfolding receive
  receive-Clean on_redirect timed_out trace k c = c
  receive-Clean on_redirect failed trace k c = c
  receive-Clean on_redirect (answered response) trace k c =
      elim (Bool-cases (env.is_redirection response.status)) [
        | inl e ↦ rw e (k response)
        | inr e ↦ rw e c
      ]

  follow-Clean : (left : ℕ) → Keeps (follow env left)
  unfolding follow
  follow-Clean zero url trace s v c =
      receive-Clean _ (env.send trace url) (sent url ∷ trace) (λ r. (s, v, c)) (s, v, c)
  follow-Clean (suc left) url trace s v c =
      receive-Clean _ (env.send trace url) (sent url ∷ trace)
        (λ r. redirect-Clean (follow env left) url r _ (follow-Clean left) (s, v, c)) (s, v, c)

  -- Whatever the resolver and the upstreams answer, `secure_request` keeps a clean trace clean: every
  -- request that it sends is to a safe URL and, where the URL has a host text, comes directly after a
  -- lookup of that host that gave an address and no blocked one.
  pub secure_request-Clean :
      (url : Url) (policy : HttpSecurityPolicy) (trace : Trace)
      → Clean trace
      → Clean (secure_request env url policy trace).1
  unfolding secure_request
  secure_request-Clean url policy trace c =
      elim (Bool-cases (policy.require_https && not (text_eq url.scheme (text "https")))) [
        | inl e ↦ rw e c
        | inr e ↦ rw e (
            vet-Clean (follow env policy.max_redirects) url trace
              (follow-Clean policy.max_redirects) c)
      ]

-- ===== src/Security/Egress.antt =====
-- crates/rdap-security/src: `secure_request` and `secure_fetch` of lib.rs, `resolve_host` of dns.rs,
-- `validate_redirect` of redirect.rs, `validate_rdap_content_type` and `read_limited`.
pub mod Vetted
pub mod Limits
use rdapify.Base.{
  ℕ, zero, suc, ◌+◌, ◌*◌, Bool, true, false, ◌&&◌, ◌||◌, not, Option, none, some, List, [], ◌∷◌,
  ◌++◌, ltb, length, if◌then◌else◌,
}
use rdapify.Base.Text.{Text, text, text_eq}
use rdapify.Base.Text.Parts.{split, trim}
use rdapify.Base.Result.{Result, ok, err, ◌>>=◌}
use rdapify.Net.{IpAddr}
use rdapify.Security.Error.{
  SecurityError, invalid_scheme, invalid_host, dns_resolution_failed, too_many_redirects,
  response_too_large, invalid_content_type, timeout, network,
}
use rdapify.Security.Url.{Url, validate_url, validate_resolved_ips}
use rdapify.Security.Http.{
  Chunk, bytes, broken, Response, Sent, timed_out, failed, answered, Trace, looked_up, sent,
  Environment, HttpSecurityPolicy,
}

abbrev pub default_policy : HttpSecurityPolicy
default_policy = record {
  timeout = 15000;
  max_redirects = 5;
  max_response_size = 5 * 1024 * 1024;
  require_https = true;
}

-- The content type without its parameters.
mime_of : Option Text → Text
mime_of none = trim []
mime_of (some raw) = elim (split 59 raw) [ [] ↦ trim [] | s ∷ _ ↦ trim s ]

unfoldable pub validate_rdap_content_type : Response → Result SecurityError (Unit {0})
unfolding mime_of
validate_rdap_content_type response =
    let mime = mime_of response.content_type in
    if text_eq mime (text "application/rdap+json") || text_eq mime (text "application/json")
    then ok tt
    else err invalid_content_type

-- The `while let` loop over the chunks.
unfoldable pub read_chunks : ℕ → Text → List Chunk → Result SecurityError Text
read_chunks max_size buf [] = ok buf
read_chunks max_size buf (broken ∷ chunks) = err network
read_chunks max_size buf (bytes chunk ∷ chunks) =
    let rest = read_chunks max_size (buf ++ chunk) chunks in
    if ltb max_size (length buf + length chunk) then err response_too_large else rest

abbrev pub exceeds : Option ℕ → ℕ → Bool
exceeds none max_size = false
exceeds (some len) max_size = ltb max_size len

unfoldable pub read_limited : Response → ℕ → Result SecurityError Text
read_limited response max_size =
    if exceeds response.content_length max_size
    then err response_too_large
    else read_chunks max_size [] response.body

-- A failed lookup and an empty answer are both errors.
pub resolved : Option (List IpAddr) → Result SecurityError (List IpAddr)
resolved none = err dns_resolution_failed
resolved (some []) = err dns_resolution_failed
resolved (some (ip ∷ ips)) = ok (ip ∷ ips)

abbrev pub Outcome : Type 0 → Type 0
Outcome A = Result SecurityError A × Trace

module _ (env : Environment) where
  unfoldable pub resolve_host : Text → Trace → Outcome (List IpAddr)
  unfolding resolved
  resolve_host host trace =
      let addrs = env.lookup_host trace host in (resolved addrs, looked_up host addrs ∷ trace)

  -- `if let Some(host) = url.host_str() { … }`, which both callers have.
  unfoldable pub vet_host : Option Text → Trace → Outcome (Unit {0})
  vet_host none trace = (ok tt, trace)
  vet_host (some host) trace =
      let (ips, trace') = resolve_host host trace in (ips >>= validate_resolved_ips, trace')

  abbrev vet_after : Result SecurityError (Unit {0}) → Url → Trace → Outcome (Unit {0})
  vet_after (err e) to trace = (err e, trace)
  vet_after (ok _) to trace = vet_host to.host_str trace

  unfoldable pub validate_redirect : Url → Url → Trace → Outcome (Unit {0})
  validate_redirect from to trace = vet_after (validate_url to) to trace

  abbrev pub Next : Type 0
  Next = Url → Trace → Outcome Response

  abbrev proceed : Next → Url → Outcome (Unit {0}) → Outcome Response
  proceed next url (err e, trace) = (err e, trace)
  proceed next url (ok _, trace) = next url trace

  abbrev target : Url → Option Text → Option Url
  target url none = none
  target url (some location) = env.join url location

  -- The rest of a redirect, from the `Location` header on; `next` is the next round of the loop.
  unfoldable pub redirect : Next → Url → Response → Trace → Outcome Response
  redirect next url response trace = elim (target url response.location) [
    | none ↦ (err invalid_host, trace)
    | some to ↦ proceed next to (validate_redirect url to trace)
  ]

  unfoldable pub receive : (Response → Trace → Outcome Response) → Sent → Trace → Outcome Response
  receive on_redirect timed_out trace = (err timeout, trace)
  receive on_redirect failed trace = (err network, trace)
  receive on_redirect (answered response) trace =
      if env.is_redirection response.status
      then on_redirect response trace
      else (ok response, trace)

  -- The loop of `secure_request`, by the redirects that are left: `max_redirects - redirect_count`.
  unfoldable pub follow : ℕ → Url → Trace → Outcome Response
  follow zero url trace =
      receive (λ response trace'. (err too_many_redirects, trace')) (env.send trace url)
        (sent url ∷ trace)
  follow (suc left) url trace =
      receive (redirect (follow left) url) (env.send trace url) (sent url ∷ trace)

  unfoldable pub secure_request : Url → HttpSecurityPolicy → Trace → Outcome Response
  unfolding validate_redirect
  secure_request url policy trace =
      if policy.require_https && not (text_eq url.scheme (text "https"))
      then (err invalid_scheme, trace)
      else proceed (follow policy.max_redirects) url (vet_after (validate_url url) url trace)

  abbrev read_body : HttpSecurityPolicy → Outcome Response → Outcome Text
  read_body policy (err e, trace) = (err e, trace)
  read_body policy (ok response, trace) = (
    validate_rdap_content_type response >>= (λ _. read_limited response policy.max_response_size),
    trace,
  )

  unfoldable pub secure_fetch : Url → HttpSecurityPolicy → Trace → Outcome Text
  secure_fetch url policy trace = read_body policy (secure_request url policy trace)

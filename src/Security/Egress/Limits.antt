-- ===== src/Security/Egress/Limits.antt =====
-- crates/rdap-security/src/lib.rs and limits.rs: requests sent and bytes read.
use rdapify.Base.{
  ℕ, zero, suc, ◌+◌, ◌≤◌, ◌≡◌, ◌↔◌, refl, ◌∙◌, false, ◌&&◌, not, Option, none, some, List, [], ◌∷◌,
  ◌++◌, arith, length, length-append, Bool-cases, Option-cases, inl, inr,
}
use mathlib.Core.List.{append-nil, append_assoc}
use rdapify.Base.Text.{Text, text, text_eq}
use rdapify.Base.Result.{Result, ok, err, Result-cases}
use rdapify.Security.Error.{SecurityError, too_many_redirects}
use rdapify.Security.Url.{Url, validate_url}
use rdapify.Security.Http.{
  Chunk, bytes, broken, Response, Sent, timed_out, failed, answered, Trace, looked_up, sent,
  sent_unchecked, Environment, HttpSecurityPolicy,
}
use rdapify.Security.Egress.{
  Next, Outcome, target, proceed, vet_after, resolve_host, vet_host, redirect, receive, follow,
  validate_redirect, secure_request, read_chunks, read_limited, exceeds,
}

-- How many requests have left.
abbrev pub requests : Trace → ℕ
requests [] = 0
requests (looked_up h ips ∷ trace) = requests trace
requests (sent url ∷ trace) = suc (requests trace)
requests (sent_unchecked url ∷ trace) = suc (requests trace)

-- The bytes of a body that arrives whole.
abbrev pub whole : List Chunk → Option Text
whole [] = some []
whole (broken ∷ chunks) = none
whole (bytes chunk ∷ chunks) = elim (whole chunks) [
  | none ↦ none
  | some rest ↦ some (chunk ++ rest)
]

module _ (env : Environment) where
  requests-vet_host :
      (host : Option Text) (trace : Trace) → requests (vet_host env host trace).1 ≡ requests trace
  unfolding vet_host resolve_host
  requests-vet_host none trace = refl
  requests-vet_host (some host) trace = refl

  abbrev Sends : ℕ → Next env → Type 0
  Sends n next = (url : Url) (trace : Trace) → requests (next url trace).1 ≤ requests trace + n

  proceed-Sends :
      (n : ℕ) (next : Next env) (url : Url) (r : Result SecurityError (Unit {0})) (trace : Trace)
      → Sends n next
      → requests (proceed env next url (r, trace)).1 ≤ requests trace + n
  proceed-Sends n next url (ok _) trace k = k url trace
  proceed-Sends n next url (err e) trace k = omega arith

  vet-Sends :
      (n : ℕ) (next : Next env) (url : Url) (trace : Trace)
      → Sends n next
      → requests (proceed env next url (vet_after env (validate_url url) url trace)).1
        ≤ requests trace + n
  vet-Sends n next url trace k = elim (Result-cases (validate_url url)) [
    | inl (_, e) ↦ rw e (
        omega (
          arith,
          requests-vet_host url.host_str trace,
          proceed-Sends n next url (vet_host env url.host_str trace).0
              (vet_host env url.host_str trace).1 k,
        ))
    | inr (x, e) ↦ rw e (omega arith)
  ]

  redirect-Sends :
      (n : ℕ) (next : Next env) (url : Url) (response : Response) (trace : Trace)
      → Sends n next
      → requests (redirect env next url response trace).1 ≤ requests trace + n
  unfolding redirect validate_redirect
  redirect-Sends n next url response trace k =
      elim (Option-cases (target env url response.location)) [
        | inl e ↦ rw (e, redirect) (omega arith)
        | inr (to, e) ↦ rw (e, redirect) (vet-Sends n next to trace k)
      ]

  receive-Sends :
      (n : ℕ) (on_redirect : Response → Trace → Outcome Response) (s : Sent) (trace : Trace)
      → ((response : Response) → requests (on_redirect response trace).1 ≤ requests trace + n)
      → requests (receive env on_redirect s trace).1 ≤ requests trace + n
  unfolding receive
  receive-Sends n on_redirect timed_out trace k = omega arith
  receive-Sends n on_redirect failed trace k = omega arith
  receive-Sends n on_redirect (answered response) trace k =
      elim (Bool-cases (env.is_redirection response.status)) [
        | inl e ↦ rw e (k response)
        | inr e ↦ rw e (omega arith)
      ]

  follow-Sends : (left : ℕ) → Sends (suc left) (follow env left)
  unfolding follow
  follow-Sends zero url trace = omega (
    arith,
    receive-Sends 0 (λ response trace'. (err too_many_redirects, trace')) (env.send trace url)
        (sent url ∷ trace) (λ r. omega arith),
  )
  follow-Sends (suc left) url trace = omega (
    arith,
    receive-Sends (suc left) (redirect env (follow env left) url) (env.send trace url)
        (sent url ∷ trace)
        (λ r. redirect-Sends (suc left) (follow env left) url r _ (follow-Sends left)),
  )

  -- Whatever the upstreams answer, `secure_request` ends after at most `max_redirects + 1` requests.
  pub secure_request-requests :
      (url : Url) (policy : HttpSecurityPolicy) (trace : Trace)
      → requests (secure_request env url policy trace).1 ≤ requests trace + suc policy.max_redirects
  unfolding secure_request
  secure_request-requests url policy trace =
      elim (Bool-cases (policy.require_https && not (text_eq url.scheme (text "https")))) [
        | inl e ↦ rw e (omega arith)
        | inr e ↦ rw e (
            vet-Sends (suc policy.max_redirects) (follow env policy.max_redirects) url trace
              (follow-Sends policy.max_redirects))
      ]

  -- A URL that the checks refuse costs nothing: no lookup and no request.
  pub secure_request_refused :
      (url : Url) (policy : HttpSecurityPolicy) (trace : Trace) (e : SecurityError)
      → validate_url url ≡ err e
      → (secure_request env url policy trace).1 ≡ trace
  unfolding secure_request
  secure_request_refused url policy trace e h =
      elim (Bool-cases (policy.require_https && not (text_eq url.scheme (text "https")))) [
        | inl t ↦ rw t
        | inr t ↦ rw (t, h)
      ]

-- A body as the loop is to return it: all of it, behind what is already in the buffer.
abbrev Reads : ℕ → Text → List Chunk → Text → Type 0
Reads max_size buf chunks body =
    (rest : Text) × (whole chunks ≡ some rest) × (body ≡ buf ++ rest) × (length body ≤ max_size)

read_chunks_sound :
    (max_size : ℕ) (buf : Text) (chunks : List Chunk) (body : Text)
    → length buf ≤ max_size
    → read_chunks max_size buf chunks ≡ ok body
    → Reads max_size buf chunks body
unfolding read_chunks
read_chunks_sound max_size buf [] body h e =
    ([], refl, ground (arith, append-nil buf), ground arith)
read_chunks_sound max_size buf (broken ∷ chunks) body h e = cc
read_chunks_sound max_size buf (bytes c ∷ chunks) body h e =
    let (rest, all, eq, fits) =
      read_chunks_sound max_size (buf ++ c) chunks body (ground (arith, length-append buf c))
        (ground arith) in
    (c ++ rest, rw all, eq ∙ append_assoc buf c rest, fits)

read_chunks_complete :
    (max_size : ℕ) (buf : Text) (chunks : List Chunk) (rest : Text)
    → whole chunks ≡ some rest
    → length (buf ++ rest) ≤ max_size
    → read_chunks max_size buf chunks ≡ ok (buf ++ rest)
unfolding read_chunks
read_chunks_complete max_size buf [] rest h f = ground (arith, append-nil buf)
read_chunks_complete max_size buf (broken ∷ chunks) rest h f = cc
read_chunks_complete max_size buf (bytes c ∷ chunks) rest h f = elim (Option-cases (whole chunks)) [
  | inl e ↦ absurd (ground arith)
  | inr (more, e) ↦
      let split : rest ≡ c ++ more = ground arith in
      let again = append_assoc buf c more in
      let fits : length (buf ++ c ++ more) ≤ max_size = rw (again, ← split) f in
      let below : length buf + length c ≤ max_size =
        omega (arith, length-append (buf ++ c) more, length-append buf c) in
      ground
        (arith, read_chunks_complete max_size (buf ++ c) chunks more e fits, again, below, split)
]

-- A body is read exactly when it arrives whole, neither it nor its announced length passes the
-- limit, and then all of it is returned.
pub read_limited_iff :
    (response : Response) (max_size : ℕ) (body : Text)
    → (read_limited response max_size ≡ ok body) ↔ (
        (exceeds response.content_length max_size ≡ false)
        × (whole response.body ≡ some body)
        × (length body ≤ max_size))
unfolding read_limited
read_limited_iff response max_size body = (
  λ h.
      let (rest, all, eq, fits) =
        read_chunks_sound max_size [] response.body body (omega arith) (ground arith) in
      (ground arith, rw eq all, fits),
  λ (within, all, fits). rw within (read_chunks_complete max_size [] response.body body all fits),
)

-- ===== src/Core/Fetcher/Attempt/Sound.antt =====
-- What one attempt gives, and what it leaves alone.
use rdapify.Base.{
  suc, ◌+◌, arith, ℕ, ◌≤◌, ◌≡◌, refl, Bool, true, false, Option, some, not, length, if-both, subst,
  sym, ◌∙◌, arith, Option-cases, inl, inr,
}
use rdapify.Base.Text.{Text}
use rdapify.Base.Result.{Result, ok, err}
use rdapify.Types.Error
use rdapify.Security.Error.{SecurityError}
use rdapify.Security.Http.{Response, Trace}
use rdapify.Security.Egress.{read_limited}
use rdapify.Security.Egress.Vetted.{Clean, secure_request-Clean}
use rdapify.Security.Egress.Limits.{requests, secure_request-requests}
use rdapify.Security.Guard
use rdapify.Core.Breaker.{Origin}
use rdapify.Core.Retry.{parse_cache_control}
use rdapify.Core.Validation.{Value, ValidationError, validate_rdap_response}
use rdapify.Core.Validation.Response.{Passes, validate_rdap_response_iff}
use rdapify.Core.Fetcher.Attempt.{
  World, Fetcher, State, AttemptResult, Action, received, refused, closed, per_host, global,
  acquired, act, send_secure, send_validated, validated, body_read, respond, do_fetch_with_headers,
  per_host_semaphore, drop_per_host, under_permits, take_global, take_per_host, attempt_once,
}

module _ (w : World) (f : Fetcher) where
  -- A value that was read from a short enough body and keeps every limit of the configuration.
  pub record Checked (value : Value) : Type 0 where
    pub body : Text
    pub short : length body ≤ f.config.validation_limits.max_json_size
    pub parsed : w.from_slice body ≡ some value
    pub passes : Passes f.config.validation_limits value

  abbrev pub Genuine : AttemptResult → Type 0
  Genuine (received value cache_hint) = Checked value
  Genuine (refused error retry_after) = Unit
  Genuine closed = Unit

  validated-Genuine :
      (hint : Option ℕ) (body : Text)
      → Genuine
          (validated w f hint (validate_rdap_response w.from_slice f.config.validation_limits body))
  unfolding validated
  validated-Genuine hint body =
      let (r, eq, both) = validate_rdap_response_iff w.from_slice f.config.validation_limits body in
      rw eq (go r (λ value h. (both value).0 h))
    where
      go :
          (r : Result ValidationError Value)
          → ((value : Value)
              → r ≡ ok value
              → (length body ≤ f.config.validation_limits.max_json_size)
                × (w.from_slice body ≡ some value)
                × Passes f.config.validation_limits value)
          → Genuine (validated w f hint (some r))
      go (err e) sound = tt
      go (ok value) sound =
          let (short, parsed, passes) = sound value refl in
          record { body = body; short = short; parsed = parsed; passes = passes }

  body_read-Genuine :
      (hint : Option ℕ) (body : Result SecurityError Text) → Genuine (body_read w f hint body)
  unfolding body_read
  body_read-Genuine hint (err e) = tt
  body_read-Genuine hint (ok body) = validated-Genuine hint body

  respond-Genuine :
      (url : Text) (now : ℕ) (r : Result Error.RdapError Response) → Genuine (respond w f url now r)
  unfolding respond
  respond-Genuine url now (err e) = tt
  respond-Genuine url now (ok response) =
      if-both Genuine (not (w.net.is_success response.status)) _ _ (λ _. tt)
        (λ _.
          body_read-Genuine (parse_cache_control response.cache_control)
            (read_limited response f.config.validation_limits.max_json_size))

  -- What an attempt from `s` gives: a genuine result, a clean trace under the guard, and the breakers
  -- as they were.
  pub record Attempted (s : State) (o : AttemptResult × State) : Type 0 where
    pub genuine : Genuine o.0
    pub clean : Guard.is_enabled f.ssrf ≡ true → Clean s.trace → Clean o.1.trace
    pub breakers : o.1.breakers ≡ s.breakers
    pub few : requests o.1.trace ≤ requests s.trace + suc f.egress_policy.max_redirects

  send_validated-Clean :
      (url : Text) (trace : Trace)
      → Guard.is_enabled f.ssrf ≡ true
      → Clean trace
      → Clean (send_validated w f url trace).1
  unfolding send_validated
  send_validated-Clean url trace on c = rw on (elim (Option-cases (w.net.parse url)) [
    | inl e ↦ rw (e, send_secure) c
    | inr (parsed, e) ↦
        rw (e, send_secure) (secure_request-Clean w.net parsed f.egress_policy trace c)
  ])

  send_validated-requests :
      (url : Text) (trace : Trace)
      → requests (send_validated w f url trace).1
        ≤ requests trace + suc f.egress_policy.max_redirects
  unfolding send_validated
  send_validated-requests url trace =
      if-both
        (λ (o : Result Error.RdapError Response × Trace).
          requests o.1 ≤ requests trace + suc f.egress_policy.max_redirects)
        (Guard.is_enabled f.ssrf) _ _
        (λ on. elim (Option-cases (w.net.parse url)) [
          | inl e ↦ rw (e, send_secure) (omega arith)
          | inr (parsed, e) ↦
              rw (e, send_secure) (secure_request-requests w.net parsed f.egress_policy trace)
        ])
        (λ off. omega arith)

  under_permits-Attempted :
      (gated : Bool) (url : Text) (s : State) → Attempted s (under_permits w f gated url s)
  unfolding under_permits do_fetch_with_headers
  under_permits-Attempted true url s = record {
    genuine = respond-Genuine url _ (send_validated w f url s.trace).0;
    clean = send_validated-Clean url s.trace;
    breakers = refl;
    few = send_validated-requests url s.trace;
  }
  under_permits-Attempted false url s = record {
    genuine = respond-Genuine url _ (send_validated w f url s.trace).0;
    clean = send_validated-Clean url s.trace;
    breakers = refl;
    few = send_validated-requests url s.trace;
  }

  -- An action is not a request.
  again-Attempted :
      {a : Action} {s : State} {o : AttemptResult × State} → Attempted (act a s) o → Attempted s o
  again-Attempted h = record {
    genuine = h.genuine;
    clean = h.clean;
    breakers = h.breakers;
    few = h.few;
  }

  closed-Attempted :
      {s s' : State} → s'.trace ≡ s.trace → s'.breakers ≡ s.breakers → Attempted s (closed, s')
  closed-Attempted {s} {s'} t b = record {
    genuine = tt;
    clean = λ on c. subst Clean (sym t) c;
    breakers = b;
    few =
        subst (λ (x : Trace). requests x ≤ requests s.trace + suc f.egress_policy.max_redirects)
          (sym t) (omega arith);
  }

  take_global-Attempted :
      (gated : Bool) (url : Text) (s : State) → Attempted s (take_global w f gated url s)
  unfolding take_global
  take_global-Attempted gated url s =
      if-both (Attempted s) (w.permits s.log global) _ _
        (λ _. again-Attempted (under_permits-Attempted gated url (act (acquired global) s)))
        (λ _. dropped gated)
    where
      dropped : (gated : Bool) → Attempted s (closed, drop_per_host gated s)
      dropped true = closed-Attempted refl refl
      dropped false = closed-Attempted refl refl

  take_per_host-Attempted :
      (gated : Bool) (url : Text) (s : State) → Attempted s (take_per_host w f gated url s)
  unfolding take_per_host
  take_per_host-Attempted false url s = take_global-Attempted false url s
  take_per_host-Attempted true url s =
      if-both (Attempted s) (w.permits s.log per_host) _ _
        (λ _. again-Attempted (take_global-Attempted true url (act (acquired per_host) s)))
        (λ _. closed-Attempted refl refl)

  semaphore_frame :
      (origin : Origin) (s : State)
      → let s' = (per_host_semaphore w f origin s).1 in
        (s'.trace ≡ s.trace) × (s'.breakers ≡ s.breakers)
  unfolding per_host_semaphore
  semaphore_frame origin s = ground arith

  pub attempt_once-Attempted :
      (url : Text) (origin : Origin) (s : State) → Attempted s (attempt_once w f url origin s)
  unfolding attempt_once
  attempt_once-Attempted url origin s =
      let (gated, s') = per_host_semaphore w f origin s in
      let (t, b) = semaphore_frame origin s in
      let h = take_per_host-Attempted gated url s' in
      record {
        genuine = h.genuine;
        clean = λ on c. h.clean on (subst Clean (sym t) c);
        breakers = h.breakers ∙ b;
        few =
            subst
              (λ (x : Trace).
                requests (take_per_host w f gated url s').1.trace
                ≤ requests x + suc f.egress_policy.max_redirects)
              t h.few;
      }

-- ===== src/Core/Fetcher/Attempt.antt =====
-- crates/rdap-core/src/fetcher.rs: one HTTP attempt, with the permits, the request, the size cap and the
-- validation.
pub mod Sound
use rdapify.Base.{
  ℕ, zero, suc, ◌+◌, Bool, true, false, Option, none, some, List, [], ◌∷◌, leb, length,
  if◌then◌else◌, not,
}
use rdapify.Base.Text.{Text, text}
use rdapify.Base.Result.{Result, ok, err}
use rdapify.Types.Error.{RdapError}
use rdapify.Types.Error
use rdapify.Security.Error.{SecurityError}
use rdapify.Security.Error as SE
use rdapify.Security.Url.{Url}
use rdapify.Security.Http.{
  Response, Sent, timed_out, failed, answered, sent_unchecked, Trace, Environment,
  HttpSecurityPolicy,
}
use rdapify.Security.Egress.{secure_request, default_policy, read_limited}
use rdapify.Security.Guard
use rdapify.Security.Guard.{SsrfGuard}
use rdapify.Core.Breaker.{Origin, Registry, lookup, insert}
use rdapify.Core.Retry.{parse_retry_after, parse_cache_control}
use rdapify.Core.Validation.{Value, ValidationError, validate_rdap_response}
use rdapify.Core.Fetcher.Config.{FetcherConfig, per_host_registry_capacity}

pub data Permit : Type 0 where
  per_host global : Permit

-- What a call does besides its requests, newest first in a log.
pub data Action : Type 0 where
  acquired released : Permit → Action
  attempted : Action
  slept : ℕ → Action

abbrev pub Log : Type 0
Log = List Action

pub record Fetcher : Type 0 where
  pub ssrf : SsrfGuard
  pub config : FetcherConfig
  pub egress_policy : HttpSecurityPolicy

-- What a call runs in. Answers may depend on all that has happened.
pub record World : Type 0 where
  pub net : Environment
  -- `client.get(url).send()` without the security pipeline
  pub get : Trace → Text → Sent
  -- `serde_json::from_slice`, `chrono::DateTime::parse_from_rfc2822` (Unix milliseconds)
  pub from_slice : Text → Option Value
  pub parse_from_rfc2822 : Text → Option ℕ
  -- the wall clock, in Unix milliseconds, and the draws of `rand`
  pub now : Log → ℕ
  pub gen_range : Log → ℕ → ℕ
  -- whether a semaphore is still open when it is acquired
  pub permits : Log → Permit → Bool
  -- whether moka still holds the breaker of an origin
  pub holds : Log → Origin → Bool

-- The state that a call changes. `semaphores` has an entry for each origin with a semaphore of its
-- own, and the permits that it was made with.
pub record State : Type 0 where
  pub trace : Trace
  pub log : Log
  pub semaphores : List (Origin × ℕ)
  pub breakers : Registry

pub data AttemptResult : Type 0 where
  received : Value → Option ℕ → AttemptResult
  refused : RdapError → Option ℕ → AttemptResult
  -- a semaphore was closed
  closed : AttemptResult

abbrev scheme_of : Option Url → Text
scheme_of none = text "non-https"
scheme_of (some url) = url.scheme

unfoldable pub map_security_error : Environment → SecurityError → Text → ℕ → RdapError
map_security_error env SE.invalid_scheme url timeout =
    Error.insecure_scheme (scheme_of (env.parse url))
map_security_error env SE.blocked_ip url timeout = Error.ssrf_blocked url
map_security_error env SE.private_ip url timeout = Error.ssrf_blocked url
map_security_error env SE.loopback_ip url timeout = Error.ssrf_blocked url
map_security_error env SE.link_local_ip url timeout = Error.ssrf_blocked url
map_security_error env SE.invalid_host url timeout = Error.ssrf_blocked url
map_security_error env SE.credentials_in_url url timeout = Error.ssrf_blocked url
map_security_error env SE.dns_resolution_failed url timeout = Error.ssrf_blocked url
map_security_error env SE.dns_rebinding_detected url timeout = Error.ssrf_blocked url
map_security_error env SE.too_many_redirects url timeout = Error.ssrf_blocked url
map_security_error env SE.timeout url timeout = Error.timeout timeout url
map_security_error env SE.network url timeout = Error.network
map_security_error env SE.response_too_large url timeout = Error.parse_error
map_security_error env SE.invalid_content_type url timeout = Error.parse_error

abbrev error_of_read : SecurityError → RdapError
error_of_read SE.network = Error.network
error_of_read _ = Error.parse_error

module _ (w : World) (f : Fetcher) where
  mapped : Text → Result SecurityError Response → Result RdapError Response
  mapped url (ok response) = ok response
  mapped url (err e) = err (map_security_error w.net e url f.egress_policy.timeout)

  direct : Text → Sent → Result RdapError Response
  direct url timed_out = err (Error.timeout f.config.timeout url)
  direct url failed = err Error.network
  direct url (answered response) = ok response

  pub send_secure : Text → Option Url → Trace → Result RdapError Response × Trace
  unfolding mapped
  send_secure url none trace = (err (Error.invalid_url url), trace)
  send_secure url (some parsed) trace =
      let (r, trace') = secure_request w.net parsed f.egress_policy trace in (mapped url r, trace')

  unfoldable pub send_validated : Text → Trace → Result RdapError Response × Trace
  unfolding send_secure direct
  send_validated url trace =
      if Guard.is_enabled f.ssrf
      then send_secure url (w.net.parse url) trace
      else (direct url (w.get trace url), sent_unchecked url ∷ trace)

  -- The end of `do_fetch_with_headers`, where the body has been read.
  validated : Option ℕ → Option (Result ValidationError Value) → AttemptResult
  validated cache_hint none = refused Error.parse_error none
  validated cache_hint (some (ok value)) = received value cache_hint
  validated cache_hint (some (err e)) = refused Error.parse_error none

  body_read : Option ℕ → Result SecurityError Text → AttemptResult
  body_read cache_hint (err e) = refused (error_of_read e) none
  body_read cache_hint (ok bytes) =
      validated cache_hint (validate_rdap_response w.from_slice f.config.validation_limits bytes)

  pub respond : Text → ℕ → Result RdapError Response → AttemptResult
  unfolding body_read validated
  respond url now (err error) = refused error none
  respond url now (ok response) =
      if not (w.net.is_success response.status)
      then refused (Error.http_status response.status url)
          (parse_retry_after w.parse_from_rfc2822 now response.retry_after)
      else body_read (parse_cache_control response.cache_control)
          (read_limited response f.config.validation_limits.max_json_size)

  unfoldable pub do_fetch_with_headers : Text → State → AttemptResult × State
  unfolding respond
  do_fetch_with_headers url s =
      let (r, trace') = send_validated url s.trace in
      (respond url (w.now s.log) r, record s { trace = trace' })

  -- Whether the origin has a semaphore of its own, made here if there is room for it.
  semaphore_in : Origin → Option ℕ → State → Bool × State
  semaphore_in origin none s = (false, s)
  semaphore_in origin (some limit) s = elim (lookup origin s.semaphores) [
    | some _ ↦ (true, s)
    | none ↦
        if leb per_host_registry_capacity (length s.semaphores)
        then (false, s)
        else (true, record s { semaphores = insert origin limit s.semaphores })
  ]

  unfoldable pub per_host_semaphore : Origin → State → Bool × State
  unfolding semaphore_in
  per_host_semaphore origin s = semaphore_in origin f.config.per_host_concurrency_limit s

abbrev pub act : Action → State → State
act a s = record s { log = a ∷ s.log }

-- `drop(_per_host_permit)`, where there is one.
abbrev pub drop_per_host : Bool → State → State
drop_per_host true s = act (released per_host) s
drop_per_host false s = s

module _ (w : World) (f : Fetcher) where
  -- Under both permits. They are dropped before the call returns or sleeps, the global one first.
  unfoldable pub under_permits : Bool → Text → State → AttemptResult × State
  under_permits gated url s =
      let (r, s') = do_fetch_with_headers w f url (act attempted s) in
      (r, drop_per_host gated (act (released global) s'))

  unfoldable pub take_global : Bool → Text → State → AttemptResult × State
  unfolding under_permits
  take_global gated url s =
      if w.permits s.log global
      then under_permits gated url (act (acquired global) s)
      else (closed, drop_per_host gated s)

  unfoldable pub take_per_host : Bool → Text → State → AttemptResult × State
  unfolding take_global
  take_per_host false url s = take_global false url s
  take_per_host true url s =
      if w.permits s.log per_host
      then take_global true url (act (acquired per_host) s)
      else (closed, s)

  -- One round of the loop of `fetch_with_retry`, up to its result.
  unfoldable pub attempt_once : Text → Origin → State → AttemptResult × State
  unfolding take_per_host
  attempt_once url origin s =
      let (gated, s') = per_host_semaphore w f origin s in take_per_host gated url s'

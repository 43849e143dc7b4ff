-- ===== src/Security/Http.antt =====
-- What lies outside the repository on the way to an upstream: the `url` crate, the system resolver
-- and `reqwest`. Each is an argument of the definitions that use it. The resolver and the client may
-- answer as they like, and differently each time: they are given all that has happened so far.
use rdapify.Base.{ℕ, Bool, Option, List}
use rdapify.Base.Text.{Text}
use rdapify.Net.{IpAddr}
use rdapify.Security.Url.{Url}

-- A read of the body: some bytes, or a transport error.
pub data Chunk : Type 0 where
  bytes : Text → Chunk
  broken : Chunk

-- A response; of each header the program reads, its value where that is visible ASCII.
pub record Response : Type 0 where
  pub status : ℕ
  pub location : Option Text
  pub content_type : Option Text
  pub retry_after : Option Text
  pub cache_control : Option Text
  pub content_length : Option ℕ
  pub body : List Chunk

-- `tokio::time::timeout` round `send().await`.
pub data Sent : Type 0 where
  timed_out failed : Sent
  answered : Response → Sent

-- What the outside sees of the egress pipeline, newest first in a trace.
pub data Event : Type 0 where
  looked_up : Text → Option (List IpAddr) → Event
  sent : Url → Event
  -- a request that does not go through the pipeline
  sent_unchecked : Text → Event

abbrev pub Trace : Type 0
Trace = List Event

pub record Environment : Type 0 where
  -- `Url::parse` and `Url::join`
  pub parse : Text → Option Url
  pub join : Url → Text → Option Url
  -- `StatusCode::is_redirection` and `StatusCode::is_success`
  pub is_redirection : ℕ → Bool
  pub is_success : ℕ → Bool
  -- `tokio::net::lookup_host`: the addresses, or `none` for an error
  pub lookup_host : Trace → Text → Option (List IpAddr)
  -- `client.get(url).send()` under the policy's timeout
  pub send : Trace → Url → Sent

-- crates/rdap-security/src/http_policy.rs; times are in milliseconds.
pub record HttpSecurityPolicy : Type 0 where
  pub timeout : ℕ
  pub max_redirects : ℕ
  pub max_response_size : ℕ
  pub require_https : Bool

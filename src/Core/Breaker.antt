-- ===== src/Core/Breaker.antt =====
-- crates/rdap-core/src/circuit_breaker.rs. The clock reading (`now_ms`, Unix milliseconds) is an
-- argument of each operation. An operation runs under the transition lock, and the lock-free read of
-- `before_call` decides only what the read under the lock would, so each is one step.
pub mod Keys
pub mod Calls
pub mod Failures
pub mod Probe
use rdapify.Base.{
  ℕ, ◌+◌, ◌-◌, ◌%◌, ◌^◌, Bool, true, false, Option, none, some, List, [], ◌∷◌, ◌++◌, map, leb, ◌==◌,
  if◌then◌else◌, ◌&&◌,
}
use rdapify.Base.Text.{Text, text, text_eq, to_lowercase}
use rdapify.Security.Url.{Url}

-- `open` is written `opened`.
pub data CircuitState : Type 0 where
  closed opened half_open : CircuitState

unfoldable pub as_metric : CircuitState → ℕ
as_metric closed = 0
as_metric opened = 1
as_metric half_open = 2

unfoldable pub label : CircuitState → Text
label closed = text "closed"
label opened = text "open"
label half_open = text "half_open"

abbrev pub default_failure_threshold : ℕ
default_failure_threshold = 5

abbrev pub default_cooldown_ms : ℕ
default_cooldown_ms = 30000

pub record CircuitBreaker : Type 0 where
  pub state : CircuitState
  pub consecutive_failures : ℕ  -- u64
  pub opened_at_ms : ℕ
  pub failure_threshold : ℕ
  pub cooldown_ms : ℕ

unfoldable pub with_config : ℕ → ℕ → CircuitBreaker
with_config failure_threshold cooldown_ms = record {
  state = closed;
  consecutive_failures = 0;
  opened_at_ms = 0;
  failure_threshold = failure_threshold;
  cooldown_ms = cooldown_ms;
}

before_call_in : CircuitState → ℕ → CircuitBreaker → Bool × CircuitBreaker
before_call_in closed now b = (true, b)
before_call_in half_open now b = (false, b)
before_call_in opened now b =
    if leb b.cooldown_ms (now - b.opened_at_ms)
    then (true, record b { state = half_open })
    else (false, b)

-- Whether the call may proceed.
unfoldable pub before_call : ℕ → CircuitBreaker → Bool × CircuitBreaker
unfolding before_call_in
before_call now b = before_call_in b.state now b

unfoldable pub on_success : CircuitBreaker → CircuitBreaker
on_success b = record b { consecutive_failures = 0; state = closed }

on_failure_in : CircuitState → ℕ → CircuitBreaker → CircuitBreaker
on_failure_in half_open now b = record b { opened_at_ms = now; state = opened }
on_failure_in closed now b =
    let n = (b.consecutive_failures + 1) % 2 ^ 64 in
    let counted = record b { consecutive_failures = n } in
    if leb b.failure_threshold n
    then record counted { opened_at_ms = now; state = opened }
    else counted
on_failure_in opened now b = b

unfoldable pub on_failure : ℕ → CircuitBreaker → CircuitBreaker
unfolding on_failure_in
on_failure now b = on_failure_in b.state now b

-- The key of a breaker: scheme, host and port of a URL, in lower case.
pub record Origin : Type 0 where
  pub scheme : Text
  pub host : Text
  pub port : ℕ

-- `Origin::from_url`, after `Url::parse`.
unfoldable pub from_url : Url → Option Origin
from_url url = elim url.host_str [
  | none ↦ none
  | some host ↦ elim url.port_or_known_default [
    | none ↦ none
    | some port ↦
        some (record { scheme = to_lowercase url.scheme; host = to_lowercase host; port = port })
  ]
]

unfoldable pub origin_eq : Origin → Origin → Bool
origin_eq a b = text_eq a.scheme b.scheme && (text_eq a.host b.host && a.port == b.port)

-- The breakers by origin. moka keeps them, and drops an entry by its capacity or its idle time.
pub record Registry : Type 0 where
  pub entries : List (Origin × CircuitBreaker)
  pub failure_threshold : ℕ
  pub cooldown_ms : ℕ

module _ {V : Type 0} where
  unfoldable pub lookup : Origin → List (Origin × V) → Option V
  lookup k [] = none
  lookup k ((j, v) ∷ m) = if origin_eq j k then some v else lookup k m

  unfoldable pub insert : Origin → V → List (Origin × V) → List (Origin × V)
  insert k v [] = (k, v) ∷ []
  insert k v ((j, w) ∷ m) = if origin_eq j k then (k, v) ∷ m else (j, w) ∷ insert k v m

-- What moka has left of the entries, by a test on the origins.
unfoldable pub evict :
    (Origin → Bool) → List (Origin × CircuitBreaker) → List (Origin × CircuitBreaker)
evict holds [] = []
evict holds ((j, b) ∷ entries) =
    let rest = evict holds entries in if holds j then (j, b) ∷ rest else rest

pub found_or_made : Origin → Option CircuitBreaker → Registry → CircuitBreaker × Registry
found_or_made origin (some b) reg = (b, reg)
found_or_made origin none reg =
    let b = with_config reg.failure_threshold reg.cooldown_ms in
    (b, record reg { entries = insert origin b reg.entries })

-- The breaker of an origin, made if moka does not hold one. moka may drop any entries until then.
unfoldable pub get_or_create : (Origin → Bool) → Origin → Registry → CircuitBreaker × Registry
unfolding found_or_made evict
get_or_create holds origin reg =
    let held = evict holds reg.entries in
    found_or_made origin (lookup origin held) (record reg { entries = held })

-- The shared breaker of an origin after one of its operations.
unfoldable pub put_back : Origin → CircuitBreaker → Registry → Registry
put_back origin b reg = record reg { entries = insert origin b reg.entries }

unfoldable pub snapshot : Registry → List (Origin × CircuitState)
snapshot reg = map (λ (e : Origin × CircuitBreaker). (e.0, e.1.state)) reg.entries

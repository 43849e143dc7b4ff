-- ===== src/Core/Fetcher/Retries/Requests.antt =====
-- crates/rdap-core/src/fetcher.rs: the requests of a whole call.
use rdapify.Base.{
  ℕ, zero, suc, ◌+◌, ◌-◌, ◌*◌, ◌≤◌, ◌≡◌, subst, sym, min, Option, leb, arith, if-both,
}
use rdapify.Base.Text.{Text}
use rdapify.Types.Error.{RdapError}
use rdapify.Security.Egress.Limits.{requests}
use rdapify.Core.Breaker.{Origin}
use rdapify.Core.Retry.{retry_limit}
use rdapify.Core.Retry.Consistent.{retry_limit-le}
use rdapify.Core.Fetcher.Attempt.{
  World, Fetcher, State, AttemptResult, received, refused, closed, attempt_once,
}
use rdapify.Core.Fetcher.Attempt.Sound.{attempt_once-Attempted}
use rdapify.Core.Fetcher.Retries.{Outcome, OnRetry, settle, pause, retry, fetch_with_retry}

one_more : (n k a b c : ℕ) → b ≤ a + k → c ≤ b + n * k → c ≤ a + suc n * k
one_more n k a b c h rest = omega (arith, h, rest)

-- The tries that may follow a failed one.
abbrev tries_left : ℕ → ℕ → ℕ
tries_left left attempt = min left (4 - attempt)

suc-tries_left :
    (left attempt : ℕ)
    → attempt ≤ 3
    → tries_left (suc left) attempt ≡ suc (tries_left left (suc attempt))
suc-tries_left left attempt small = omega (arith, small)

module _ (w : World) (f : Fetcher) where
  -- At most `n` attempts' worth of requests.
  abbrev Few : ℕ → State → Outcome → Type 0
  Few n s o = requests o.1.trace ≤ requests s.trace + n * suc f.egress_policy.max_redirects

  settle-Few :
      (on_retry : OnRetry) (n attempt : ℕ) (r : AttemptResult) (s s' : State)
      → requests s'.trace ≤ requests s.trace + suc f.egress_policy.max_redirects
      → ((error : RdapError) (hint : Option ℕ)
          → attempt ≤ 3
          → Few (suc n) s (on_retry error hint s'))
      → Few (suc n) s (settle on_retry attempt r s')
  unfolding settle
  settle-Few on_retry n attempt (received value hint) s s' h go = omega (arith, h)
  settle-Few on_retry n attempt closed s s' h go = omega (arith, h)
  settle-Few on_retry n attempt (refused error hint) s s' h go =
      if-both (Few (suc n) s) (leb attempt (retry_limit error)) _ _
        (λ retried. go error hint (ground (arith, retried, retry_limit-le error)))
        (λ _. omega (arith, h))

  retry-Few :
      (left attempt : ℕ) (url : Text) (origin : Origin) (s : State)
      → Few (suc (tries_left left attempt)) s (retry w f left attempt url origin s)
  unfolding retry pause
  retry-Few zero attempt url origin s =
      let h = (attempt_once-Attempted w f url origin s).few in
      settle-Few _ (tries_left zero attempt) attempt _ s _ h (λ error hint small. omega (arith, h))
  retry-Few (suc left) attempt url origin s =
      let h = (attempt_once-Attempted w f url origin s).few in
      let (r, s') = attempt_once w f url origin s in
      settle-Few _ (tries_left (suc left) attempt) attempt r s s' h (λ error hint small.
        let rest = retry-Few left (suc attempt) url origin (pause w f attempt hint s') in
        subst
          (λ n. Few (suc n) s (retry w f left (suc attempt) url origin (pause w f attempt hint s')))
          (sym (suc-tries_left left attempt small))
          (one_more (suc (tries_left left (suc attempt))) (suc f.egress_policy.max_redirects)
            (requests s.trace) (requests s'.trace) _ h rest))

  pub fetch_with_retry-Few :
      (url : Text) (origin : Origin) (s : State)
      → Few (suc (min (f.config.max_attempts - 1) 3)) s (fetch_with_retry w f url origin s)
  unfolding fetch_with_retry
  fetch_with_retry-Few url origin s = retry-Few (f.config.max_attempts - 1) 1 url origin s

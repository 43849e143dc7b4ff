-- ===== src/Core/Fetcher/Retries/Sound.antt =====
-- What the loop of `fetch_with_retry` gives, and what it leaves alone.
use rdapify.Base.{ℕ, zero, suc, ◌-◌, ◌≡◌, ◌∙◌, true, Option, leb, if-both}
use rdapify.Base.Text.{Text}
use rdapify.Base.Result.{ok, err}
use rdapify.Types.Error.{RdapError}
use rdapify.Security.Egress.Vetted.{Clean}
use rdapify.Security.Guard
use rdapify.Core.Breaker.{Origin}
use rdapify.Core.Retry.{retry_limit}
use rdapify.Core.Fetcher.Attempt.{
  World, Fetcher, State, AttemptResult, received, refused, closed, attempt_once,
}
use rdapify.Core.Fetcher.Attempt.Sound.{Checked, Attempted, attempt_once-Attempted}
use rdapify.Core.Fetcher.Retries.{Fetched, Outcome, OnRetry, settle, pause, retry, fetch_with_retry}

module _ (w : World) (f : Fetcher) where
  abbrev pub GenuineResult : Fetched → Type 0
  GenuineResult (ok fetched) = Checked w f fetched.0
  GenuineResult (err e) = Unit

  pub record Sound (s : State) (o : Outcome) : Type 0 where
    pub genuine : GenuineResult o.0
    pub clean : Guard.is_enabled f.ssrf ≡ true → Clean s.trace → Clean o.1.trace
    pub breakers : o.1.breakers ≡ s.breakers

  settle-Sound :
      (on_retry : OnRetry) (attempt : ℕ) (r : AttemptResult) (s s' : State)
      → Attempted w f s (r, s')
      → ((error : RdapError) (hint : Option ℕ) → Sound s (on_retry error hint s'))
      → Sound s (settle on_retry attempt r s')
  unfolding settle
  settle-Sound on_retry attempt (received value hint) s s' h go = record {
    genuine = h.genuine;
    clean = h.clean;
    breakers = h.breakers;
  }
  settle-Sound on_retry attempt closed s s' h go = record {
    genuine = tt;
    clean = h.clean;
    breakers = h.breakers;
  }
  settle-Sound on_retry attempt (refused error hint) s s' h go =
      if-both (Sound s) (leb attempt (retry_limit error)) _ _ (λ _. go error hint)
        (λ _. record { genuine = tt; clean = h.clean; breakers = h.breakers })

  retry-Sound :
      (left attempt : ℕ) (url : Text) (origin : Origin) (s : State)
      → Sound s (retry w f left attempt url origin s)
  unfolding retry pause
  retry-Sound zero attempt url origin s =
      let h = attempt_once-Attempted w f url origin s in
      settle-Sound _ attempt _ s _ h
        (λ error hint. record { genuine = tt; clean = h.clean; breakers = h.breakers })
  retry-Sound (suc left) attempt url origin s =
      let h = attempt_once-Attempted w f url origin s in
      let (r, s') = attempt_once w f url origin s in
      settle-Sound _ attempt _ s _ h (λ error hint.
        let k = retry-Sound left (suc attempt) url origin (pause w f attempt hint s') in
        record {
          genuine = k.genuine;
          clean = λ on c. k.clean on (h.clean on c);
          breakers = k.breakers ∙ h.breakers;
        })

  pub fetch_with_retry-Sound :
      (url : Text) (origin : Origin) (s : State) → Sound s (fetch_with_retry w f url origin s)
  unfolding fetch_with_retry
  fetch_with_retry-Sound url origin s = retry-Sound (f.config.max_attempts - 1) 1 url origin s

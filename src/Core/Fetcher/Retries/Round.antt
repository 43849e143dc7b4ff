-- ===== src/Core/Fetcher/Retries/Round.antt =====
-- What one round of the loop appends to the log of a call.
use rdapify.Base.{subst, ◌≡◌, Bool, true, false, ◌∷◌, if-both, arith}
use rdapify.Base.Text.{Text}
use rdapify.Core.Breaker.{Origin}
use rdapify.Core.Fetcher.Attempt.{
  AttemptResult, World, Fetcher, State, Log, per_host, global, acquired, released, attempted,
  attempt_once, per_host_semaphore, do_fetch_with_headers, under_permits, take_global,
  take_per_host,
}

-- Both semaphores, the global one alone, the global one closed, or nothing done at all.
pub data Round (log : Log) : Log → Type 0 where
  gated_round :
      Round log (
        released per_host ∷ released global ∷ attempted ∷ acquired global ∷ acquired per_host ∷ log)
  free_round : Round log (released global ∷ attempted ∷ acquired global ∷ log)
  given_back : Round log (released per_host ∷ acquired per_host ∷ log)
  untouched : Round log log

module _ (w : World) (f : Fetcher) where
  log-per_host_semaphore :
      (origin : Origin) (s : State) → (per_host_semaphore w f origin s).1.log ≡ s.log
  unfolding per_host_semaphore
  log-per_host_semaphore origin s = ground arith

  take_per_host-Round :
      (gated : Bool) (url : Text) (s : State) → Round s.log (take_per_host w f gated url s).1.log
  unfolding take_per_host take_global under_permits do_fetch_with_headers
  take_per_host-Round false url s =
      if-both (λ (o : AttemptResult × State). Round s.log o.1.log) (w.permits s.log global) _ _
        (λ _. free_round) (λ _. untouched)
  take_per_host-Round true url s =
      if-both (λ (o : AttemptResult × State). Round s.log o.1.log) (w.permits s.log per_host) _ _
        (λ _.
          if-both (λ (o : AttemptResult × State). Round s.log o.1.log)
            (w.permits (acquired per_host ∷ s.log) global) _ _ (λ _. gated_round) (λ _. given_back))
        (λ _. untouched)

  pub attempt_once-Round :
      (url : Text) (origin : Origin) (s : State) → Round s.log (attempt_once w f url origin s).1.log
  unfolding attempt_once
  attempt_once-Round url origin s =
      let (gated, s') = per_host_semaphore w f origin s in
      subst (λ log. Round log (take_per_host w f gated url s').1.log)
        (log-per_host_semaphore origin s) (take_per_host-Round gated url s')

-- ===== src/Cache/Tests.antt =====
-- The theorems about the cache at concrete inputs.
use rdapify.Cache.Waiting.{
  Scene, Step, Reaches, start, before, cloned, waiting, await_refresh_can_hang,
}
use rdapify.Cache.Refines.{Op, answers, table_answers}
use rdapify.Cache.Refines.Answers.{with_config_refines}
use rdapify.Base.{◌≤◌, ◌+◌, length, ◌≡◌, refl, true, none, some, ℕ, List, [], ◌∷◌, arith}
use rdapify.Base.Text.{Text, text}
use rdapify.Core.Validation.{null}
use rdapify.Cache.{max_inflight_refreshes, Keeps, seconds, with_config}
use rdapify.Cache.Refresh as Refresh
use rdapify.Cache.Refresh.{ReadsWithin, IsSingle, claims, drops, run, run-with_config-IsSingle}

abbrev keeps_all : Keeps
keeps_all now key entry = true

abbrev url : Text
url = text "u"

abbrev claimed_twice : List Refresh.Step
claimed_twice = claims 0 url ∷ claims 1 url ∷ drops url ∷ []

run-with_config-IsSingle_example :
    IsSingle (run claimed_twice (with_config (seconds 300), []))
    × ((k : ℕ)
        → ReadsWithin k claimed_twice (with_config (seconds 300), [])
        → length (run claimed_twice (with_config (seconds 300), [])).1 ≤ max_inflight_refreshes + k)
run-with_config-IsSingle_example = run-with_config-IsSingle (seconds 300) claimed_twice

in_flight : Reaches start (record { slot = some 0; next = 1; phase = cloned 0 })
in_flight = Reaches.onward (Step.claim 0 before) (Reaches.onward (Step.clone 0 1) (Reaches.here _))

await_refresh_can_hang_example :
    (t : Scene) × Reaches (record { slot = some 0; next = 1; phase = cloned 0 }) t
    × (t.phase ≡ waiting 0)
    × ((u : Scene) → Reaches t u → u.phase ≡ waiting 0)
await_refresh_can_hang_example = await_refresh_can_hang (some 0) 0 1 in_flight

abbrev played : List (ℕ × Op)
played =
    (1, Op.write url null 60)
    ∷ (2, Op.lookup url)
    ∷ (5, Op.claim 0 url)
    ∷ (9, Op.lookup (text "w"))
    ∷ []

with_config_refines_example :
    answers keeps_all played (with_config 300) ≡ table_answers played (λ key. none)
with_config_refines_example =
    with_config_refines keeps_all 300 0 played (λ now key e. refl)
      (omega arith, (omega arith, (omega arith, (omega arith, tt))))

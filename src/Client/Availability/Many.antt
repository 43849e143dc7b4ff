-- ===== src/Client/Availability/Many.antt =====
-- crates/rdapify-client/src/lib.rs: `domain_available_batch`. The tasks of a chunk run at once and end in
-- any order.
pub mod Places
pub mod Order
use rdapify.Base.{ℕ, zero, suc, ◌*◌, max, Option, none, some, List, [], ◌∷◌, map, length, take}
use rdapify.Base.Optional.{◌>>=◌, unwrap_or}
use rdapify.Base.Text.{Text}
use rdapify.Base.Result.{Result}
use rdapify.Types.Error.{RdapError}
use rdapify.Types.Response.{AvailabilityResult}
use rdapify.Client.{Parts, State, World}
use rdapify.Client.Availability.{domain_available}

abbrev pub Answer : Type 0
Answer = Result RdapError AvailabilityResult

abbrev pub Slots : Type 0
Slots = List (Option Answer)

-- A task: its place in the output, and its name.
abbrev pub Task : Type 0
Task = ℕ × Text

abbrev pub drop : {A : Type 0} → ℕ → List A → List A
drop zero l = l
drop (suc n) [] = []
drop (suc n) (x ∷ l) = drop n l

-- `slice::chunks`, with fuel for the chunks.
unfoldable pub chunks : {A : Type 0} → ℕ → ℕ → List A → List (List A)
chunks zero limit l = []
chunks (suc fuel) limit [] = []
chunks (suc fuel) limit (x ∷ l) = take limit (x ∷ l) ∷ chunks fuel limit (drop limit (x ∷ l))

-- `enumerate`, from a base.
abbrev pub enumerate_from : ℕ → List Text → List Task
enumerate_from base [] = []
enumerate_from base (name ∷ names) = (base, name) ∷ enumerate_from (suc base) names

-- `output[idx] = Some(result)`, with `none` for the panic out of range.
unfoldable pub set_slot : ℕ → Answer → Slots → Option Slots
set_slot n answer [] = none
set_slot zero answer (slot ∷ slots) = some (some answer ∷ slots)
set_slot (suc n) answer (slot ∷ slots) = set_slot n answer slots >>= λ others. some (slot ∷ others)

-- The task at a place, or the last one, and the others.
unfoldable pub pull : ℕ → Task → List Task → Task × List Task
pull zero t ts = (t, ts)
pull (suc n) t [] = (t, [])
pull (suc n) t (u ∷ ts) = let (found, others) = pull n u ts in (found, t ∷ others)

abbrev pub flatten : Slots → List Answer
flatten [] = []
flatten (none ∷ slots) = flatten slots
flatten (some answer ∷ slots) = answer ∷ flatten slots

-- A task that ends in a `JoinError` (`none`) puts nothing into its slot.
pub put_result : Option Answer → ℕ → Slots → Option Slots
put_result none place slots = some slots
put_result (some answer) place slots = set_slot place answer slots

-- What the runtime makes of the tasks: how each ends, which is the answer of its own
-- `domain_available`, run among the other tasks, or a panic; and which of the tasks left ends next.
module _ (ends : Task → Option Answer) (next : List Task → ℕ) where
  -- `join_next`, with fuel for the tasks.
  unfoldable pub join_all : ℕ → List Task → Slots → Option Slots
  unfolding put_result
  join_all fuel [] slots = some slots
  join_all zero (t ∷ ts) slots = none
  join_all (suc fuel) (t ∷ ts) slots =
      let (task, others) = pull (next (t ∷ ts)) t ts in
      put_result (ends task) task.0 slots >>= λ filled. join_all fuel others filled

  unfoldable pub each_chunk : ℕ → ℕ → List (List Text) → Slots → Option Slots
  each_chunk limit chunk_start [] slots = some slots
  each_chunk limit chunk_start (chunk ∷ later) slots =
      join_all (length chunk) (enumerate_from (chunk_start * limit) chunk) slots >>= λ done.
      each_chunk limit (suc chunk_start) later done

  unfoldable pub domain_available_batch : List Text → Option ℕ → Option (List Answer)
  domain_available_batch names concurrency =
      let limit = max (unwrap_or concurrency 10) 1 in
      each_chunk limit 0 (chunks (length names) limit names) (map (λ name. none) names) >>= λ done.
      some (flatten done)

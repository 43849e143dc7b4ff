-- ===== src/Cache/Waiting.antt =====
-- crates/rdap-cache/src/lib.rs: `await_refresh`, next to `try_acquire_refresh` and the drop of a guard,
-- for one key and one caller that waits; the followers of `Bootstrap::get_resource` wait the same way.
-- A `Notify` of tokio is a number, a new one for each claim; `notify_waiters` reaches the futures that
-- exist when it is called, and stores nothing for later ones.
use rdapify.Base.{
  ℕ, suc, ◌<◌, ◌≡◌, ◌≢◌, refl, ap, Option, none, some, arith, inl, inr, ◌==◌, Bool-cases,
  if◌then◌else◌,
}

-- Where the waiting caller is: before `in_flight.get`, with its clone of the `Notify`, in the future that
-- `notified()` made, or past the wait.
pub data Phase : Type 0 where
  before : Phase
  cloned waiting : ℕ → Phase
  past : Phase

pub record Scene : Type 0 where
  -- the `Notify` in the map, if the key is in flight
  pub slot : Option ℕ
  pub next : ℕ
  pub phase : Phase

abbrev pub start : Scene
start = record { slot = none; next = 0; phase = before }

-- `notify_waiters` of a `Notify`.
unfoldable pub notified : ℕ → Phase → Phase
notified n (waiting m) = if n == m then past else waiting m
notified n before = before
notified n (cloned m) = cloned m
notified n past = past

-- One step of another task or of the caller, each with its lock held.
pub data Step : Scene → Scene → Type 0 where
  claim :
      (n : ℕ) (ph : Phase)
      → Step
          (record { slot = none; next = n; phase = ph })
          (record { slot = some n; next = suc n; phase = ph })
  drop :
      (n k : ℕ) (ph : Phase)
      → Step
          (record { slot = some n; next = k; phase = ph })
          (record { slot = none; next = k; phase = notified n ph })
  idle :
      (k : ℕ)
      → Step
          (record { slot = none; next = k; phase = before })
          (record { slot = none; next = k; phase = past })
  clone :
      (n k : ℕ)
      → Step
          (record { slot = some n; next = k; phase = before })
          (record { slot = some n; next = k; phase = cloned n })
  wait :
      (slot : Option ℕ) (n k : ℕ)
      → Step
          (record { slot = slot; next = k; phase = cloned n })
          (record { slot = slot; next = k; phase = waiting n })

pub data Reaches : Scene → Scene → Type 0 where
  here : (s : Scene) → Reaches s s
  onward : {s t u : Scene} → Step s t → Reaches t u → Reaches s u

-- The map holds numbers that were given out, and so does the caller.
abbrev GivenOut : ℕ → Option ℕ → Type 0
GivenOut k none = Unit
GivenOut k (some n) = n < k

abbrev Held : ℕ → Phase → Type 0
Held k before = Unit
Held k (cloned n) = n < k
Held k (waiting n) = n < k
Held k past = Unit

abbrev IsNumbered : Scene → Type 0
IsNumbered s = GivenOut s.next s.slot × Held s.next s.phase

Held-suc : (k : ℕ) (ph : Phase) → Held k ph → Held (suc k) ph
Held-suc k before h = tt
Held-suc k (cloned n) h = omega arith
Held-suc k (waiting n) h = omega arith
Held-suc k past h = tt

Held-notified : (n k : ℕ) (ph : Phase) → Held k ph → Held k (notified n ph)
unfolding notified
Held-notified n k before h = tt
Held-notified n k (cloned m) h = h
Held-notified n k (waiting m) h = elim (Bool-cases (n == m)) [ inl e ↦ rw e tt | inr e ↦ rw e h ]
Held-notified n k past h = tt

step-IsNumbered : {s t : Scene} → Step s t → IsNumbered s → IsNumbered t
step-IsNumbered (Step.claim n ph) (g, h) = (omega arith, Held-suc n ph h)
step-IsNumbered (Step.drop n k ph) (g, h) = (tt, Held-notified n k ph h)
step-IsNumbered (Step.idle k) (g, h) = (tt, tt)
step-IsNumbered (Step.clone n k) (g, h) = (g, g)
step-IsNumbered (Step.wait slot n k) (g, h) = (g, h)

reaches-IsNumbered : {s t : Scene} → Reaches s t → IsNumbered s → IsNumbered t
reaches-IsNumbered (Reaches.here s) i = i
reaches-IsNumbered (Reaches.onward step rest) i = reaches-IsNumbered rest (step-IsNumbered step i)

-- A caller that waits for a `Notify` that is not in the map and will not be again.
abbrev pub IsMissed : ℕ → Scene → Type 0
IsMissed n s = (s.phase ≡ waiting n) × (s.slot ≢ some n) × (n < s.next)

passed_over : (m n : ℕ) → m ≢ n → notified m (waiting n) ≡ waiting n
unfolding notified
passed_over m n apart = elim (Bool-cases (m == n)) [
  | inl e ↦ absurd (apart (ground arith))
  | inr e ↦ rw e refl
]

step-IsMissed : (n : ℕ) {s t : Scene} → Step s t → IsMissed n s → IsMissed n t
step-IsMissed n (Step.claim m ph) (w, off, old) = (w, λ e. absurd (ground arith), omega arith)
step-IsMissed n (Step.drop m k ph) (w, off, old) = (missed, λ e. absurd (ground arith), old)
  where
    missed : notified m ph ≡ waiting n
    missed = rw w (passed_over m n (λ e. off (ap (λ (x : ℕ). some x) e)))
step-IsMissed n (Step.idle k) (w, off, old) = absurd (ground arith)
step-IsMissed n (Step.clone m k) (w, off, old) = absurd (ground arith)
step-IsMissed n (Step.wait slot m k) (w, off, old) = absurd (ground arith)

reaches-IsMissed : (n : ℕ) {s t : Scene} → Reaches s t → IsMissed n s → IsMissed n t
reaches-IsMissed n (Reaches.here s) i = i
reaches-IsMissed n (Reaches.onward step rest) i = reaches-IsMissed n rest (step-IsMissed n step i)

waits_for_ever :
    (n k : ℕ)
    → n < k
    → (u : Scene) → Reaches (record { slot = none; next = k; phase = waiting n }) u
    → u.phase ≡ waiting n
waits_for_ever n k old u r = (reaches-IsMissed n r (refl, λ e. cc, old)).0

-- A caller that has looked up the `Notify` of a refresh in flight, and not yet begun to wait, can miss
-- the wake-up: from any scene so reached, the tasks can go on so that the caller waits, and keeps waiting
-- whatever any task does from then on, later refreshes of the key included.
pub await_refresh_can_hang :
    (slot : Option ℕ) (n k : ℕ)
    → Reaches start (record { slot = slot; next = k; phase = cloned n })
    → (t : Scene) × Reaches (record { slot = slot; next = k; phase = cloned n }) t
      × (t.phase ≡ waiting n)
      × ((u : Scene) → Reaches t u → u.phase ≡ waiting n)
unfolding notified
await_refresh_can_hang none n k r =
    let old = (reaches-IsNumbered r (tt, tt)).1 in
    (_, Reaches.onward (Step.wait none n k) (Reaches.here _), refl, waits_for_ever n k old)
await_refresh_can_hang (some m) n k r =
    let old = (reaches-IsNumbered r (tt, tt)).1 in
    (
      _,
      Reaches.onward (Step.drop m k (cloned n))
          (Reaches.onward (Step.wait none n k) (Reaches.here _)),
      refl,
      waits_for_ever n k old,
    )

-- ===== src/Client/Availability/Many/Order.antt =====
-- crates/rdapify-client/src/lib.rs: the answers of `domain_available_batch`.
use native.Mathlib.Nat.{suc-mul}
use mathlib.Core.Option.{some-injective}
use rdapify.Base.{
  ◌≢◌, ℕ, zero, suc, ◌+◌, ◌*◌, ◌≤◌, ◌≡◌, ◌⊎◌, refl, ap, sym, ◌∙◌, subst, max, Option, none, some,
  List, [], ◌∷◌, map, length, take, inl, inr, arith, ◌==◌, Bool-cases,
}
use rdapify.Base.Optional.{unwrap_or}
use rdapify.Base.Text.{Text}
use rdapify.Client.Availability.Many.{
  Answer, Slots, Task, drop, chunks, enumerate_from, put_result, pull, flatten, join_all,
  each_chunk, domain_available_batch,
}
use rdapify.Client.Availability.Many.Places.{
  nth, In, In-pull, pulled-In, others-In, length-pull, put_result_lem, enumerate_split,
  length-enumerate_from, length-drop, enumerated, nth-In,
}

module _ (ends : Task → Option Answer) (next : List Task → ℕ) where
  -- The slots, with the tasks that are left: each is for the name at its place, and the slot of each name
  -- has the end of its task, or it is empty and the task is left.
  record Filling (names : List Text) (left : Task → Type 0) (slots : Slots) : Type 0 where
    aligned : (i : ℕ) (name : Text) → left (i, name) → nth i names ≡ some name
    covered :
        (i : ℕ) (name : Text)
        → nth i names ≡ some name
        → (nth i slots ≡ some (ends (i, name))) ⊎ (left (i, name) × (nth i slots ≡ some none))
    sized : length slots ≡ length names

  module _ (names : List Text) where
    -- What the slot of a task that is left holds.
    slot_of :
        (left : Task → Type 0) (n : ℕ) (called : Text) (slots : Slots)
        → Filling names left slots
        → left (n, called)
        → (nth n slots ≡ some (ends (n, called))) ⊎ (nth n slots ≡ some none)
    slot_of left n called slots f here = elim (f.covered n called (f.aligned n called here)) [
      | inl e ↦ inl e
      | inr (l, e) ↦ inr e
    ]

    -- One task has ended.
    filled_on :
        (left rest : Task → Type 0) (t : Task) (slots : Slots)
        → Filling names left slots
        → left t
        → ((u : Task) → left u → (u ≡ t) ⊎ rest u)
        → ((u : Task) → rest u → left u)
        → (filled : Slots) × (put_result (ends t) t.0 slots ≡ some filled)
          × Filling names rest filled
    filled_on left rest (n, called) slots f here out back =
        let mine = f.aligned n called here in
        let (filled, done, set, kept, size) =
          put_result_lem n (ends (n, called)) slots (slot_of left n called slots f here) in
        (
          filled,
          done,
          record {
            aligned = λ i name r. f.aligned i name (back (i, name) r);
            covered = λ i name is. elim (Bool-cases (i == n)) [
              | inl e ↦
                  let same : i ≡ n = ground arith in
                  let named : name ≡ called =
                    some-injective name called
                      (sym is ∙ (ap (λ (m : ℕ). nth m names) same ∙ mine)) in
                  inl (
                    subst (λ (m : ℕ). nth m filled ≡ some (ends (m, name))) (sym same)
                      (subst (λ (c : Text). nth n filled ≡ some (ends (n, c))) (sym named) set))
              | inr e ↦
                  let apart : i ≢ n = λ e'. ground arith in
                  elim (f.covered i name is) [
                    | inl slot ↦ inl (kept i apart ∙ slot)
                    | inr (l, empty) ↦ elim (out (i, name) l) [
                      | inl e' ↦ absurd (apart (ap (λ (u : Task). u.0) e'))
                      | inr r ↦ inr (r, kept i apart ∙ empty)
                    ]
                  ]
            ];
            sized = size ∙ f.sized;
          },
        )

    Filling-mono :
        {left rest : Task → Type 0} {slots : Slots}
        → Filling names left slots
        → ((u : Task) → left u → rest u)
        → ((u : Task) → rest u → left u)
        → Filling names rest slots
    Filling-mono f out back = record {
      aligned = λ i name r. f.aligned i name (back (i, name) r);
      covered = λ i name is. elim (f.covered i name is) [
        | inl a ↦ inl a
        | inr (l, empty) ↦ inr (out (i, name) l, empty)
      ];
      sized = f.sized;
    }

    join_all_lem :
        (later : Task → Type 0) (fuel : ℕ) (ts : List Task) (slots : Slots)
        → length ts ≡ fuel
        → Filling names (λ u. In u ts ⊎ later u) slots
        → (done : Slots) × (join_all ends next fuel ts slots ≡ some done) × Filling names later done
    unfolding join_all
    join_all_lem later fuel [] slots enough f = (
      slots,
      refl,
      record {
        aligned = λ i name r. f.aligned i name (inr r);
        covered = λ i name is. elim (f.covered i name is) [
          | inl a ↦ inl a
          | inr (l, empty) ↦ elim l [ inl h ↦ absurd h | inr r ↦ inr (r, empty) ]
        ];
        sized = f.sized;
      },
    )
    join_all_lem later zero (t ∷ ts) slots enough f = absurd (omega (arith, enough))
    join_all_lem later (suc fuel) (t ∷ ts) slots enough f =
        let n = next (t ∷ ts) in
        let found = (pull n t ts).0 in
        let others = (pull n t ts).1 in
        let (filled, set, f') =
          filled_on (λ u. In u (t ∷ ts) ⊎ later u) (λ u. In u others ⊎ later u) found slots f
            (inl (pulled-In n t ts))
            (λ u l. elim l [
              | inl h ↦ elim (In-pull n t ts u h) [ inl e ↦ inl e | inr o ↦ inr (inl o) ]
              | inr r ↦ inr (inr r)
            ])
            (λ u l. elim l [ inl o ↦ inl (others-In n t ts u o) | inr r ↦ inr r ]) in
        let (done, runs, f'') =
          join_all_lem later fuel others filled (omega (arith, length-pull n t ts, enough)) f' in
        (done, rw set runs, f'')

    each_chunk_lem :
        (fuel limit start : ℕ) (rest : List Text) (slots : Slots)
        → 1 ≤ limit
        → length rest ≤ fuel
        → Filling names (λ u. In u (enumerate_from (start * limit) rest)) slots
        → (done : Slots) × (each_chunk ends next limit start (chunks fuel limit rest) slots
            ≡ some done)
          × Filling names (λ u. ⊥) done
    unfolding each_chunk chunks
    each_chunk_lem zero limit start [] slots some_room enough f = (slots, refl, f)
    each_chunk_lem (suc fuel) limit start [] slots some_room enough f = (slots, refl, f)
    each_chunk_lem zero limit start (name ∷ rest) slots some_room enough f =
        absurd (omega (arith, enough))
    each_chunk_lem (suc fuel) limit start (name ∷ rest) slots some_room enough f =
        let base = start * limit in
        let l = name ∷ rest in
        let (out, back) = enumerate_split limit base l in
        let (done, runs, f') =
          join_all_lem (λ u. In u (enumerate_from (base + limit) (drop limit l)))
            (length (take limit l)) (enumerate_from base (take limit l)) slots
            (length-enumerate_from base (take limit l)) (Filling-mono f out back) in
        let (end, goes_on, f'') =
          each_chunk_lem fuel limit (suc start) (drop limit l) done some_room
            (omega (arith, length-drop limit name rest some_room, enough))
            (subst (λ (b : ℕ). Filling names (λ u. In u (enumerate_from b (drop limit l))) done)
              (sym (suc-mul start limit)) f') in
        (end, rw runs goes_on, f'')

  -- When no task is left, the slots are the ends of the tasks.
  slots_filled :
      (base : ℕ) (names : List Text) (slots : Slots)
      → length slots ≡ length names
      → ((i : ℕ) (name : Text)
          → nth i names ≡ some name
          → nth i slots ≡ some (ends (base + i, name)))
      → slots ≡ map ends (enumerate_from base names)
  slots_filled base [] [] same h = refl
  slots_filled base [] (slot ∷ slots) same h = absurd (omega (arith, same))
  slots_filled base (name ∷ names) [] same h = absurd (omega (arith, same))
  slots_filled base (name ∷ names) (slot ∷ slots) same h =
      let here : slot ≡ ends (base, name) =
        some-injective slot (ends (base, name))
          (subst (λ (k : ℕ). some slot ≡ some (ends (k, name))) (omega arith) (h 0 name refl)) in
      let later = slots_filled (suc base) names slots (omega (arith, same)) (λ i other is.
        subst (λ (k : ℕ). nth i slots ≡ some (ends (k, other))) (omega arith)
          (h (suc i) other is)) in
      rw (here, later) refl

  empty_slots :
      (i : ℕ) (names : List Text) (name : Text)
      → nth i names ≡ some name
      → nth i (map {B = Option Answer} (λ (name : Text). none) names) ≡ some none
  empty_slots i [] name h = absurd cc
  empty_slots zero (other ∷ names) name h = refl
  empty_slots (suc i) (other ∷ names) name h = empty_slots i names name h

  length-none :
      (names : List Text)
      → length (map {B = Option Answer} (λ (name : Text). none) names) ≡ length names
  length-none [] = refl
  length-none (name ∷ names) = ap suc (length-none names)

  empty-Filling :
      (limit : ℕ) (names : List Text)
      → Filling names (λ u. In u (enumerate_from (0 * limit) names)) (map (λ name. none) names)
  empty-Filling limit names =
      let base : 0 * limit ≡ 0 = omega arith in
      record {
        aligned = λ i name h.
            let (j, e, there) = enumerated (0 * limit) i name names h in
            subst (λ (k : ℕ). nth k names ≡ some name) (omega (arith, e, base)) there;
        covered = λ i name is. inr (
          subst (λ (k : ℕ). In (k, name) (enumerate_from (0 * limit) names)) (omega (arith, base))
              (nth-In (0 * limit) i name names is),
          empty_slots i names name is,
        );
        sized = length-none names;
      }

  -- In whatever order the tasks of each chunk end, and whatever the limit of a chunk, the batch gives,
  -- without a panic of its own, the answers of the tasks in the order of the names, each from the task of
  -- the name at its place. A task that ends in a `JoinError` has no answer in the list: the answers after
  -- it move up.
  pub domain_available_batch_lem :
      (names : List Text) (concurrency : Option ℕ)
      → domain_available_batch ends next names concurrency
        ≡ some (flatten (map ends (enumerate_from 0 names)))
  unfolding domain_available_batch
  domain_available_batch_lem names concurrency =
      let limit = max (unwrap_or concurrency 10) 1 in
      let (slots, runs, f) =
        each_chunk_lem names (length names) limit 0 names (map (λ name. none) names) (omega arith)
          (omega arith) (empty-Filling limit names) in
      let full : slots ≡ map ends (enumerate_from 0 names) =
        slots_filled 0 names slots f.sized (λ i name is.
          subst (λ (k : ℕ). nth i slots ≡ some (ends (k, name))) (omega arith)
            (elim (f.covered i name is) [ inl e ↦ e | inr (h, e) ↦ absurd h ])) in
      rw runs (ap (λ (l : Slots). some (flatten l)) full)

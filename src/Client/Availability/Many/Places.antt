-- ===== src/Client/Availability/Many/Places.antt =====
-- crates/rdapify-client/src/lib.rs: the places and tasks of `domain_available_batch`.
use mathlib.Core.Option.{some-injective}
use rdapify.Base.{
  ℕ, zero, suc, ◌+◌, ◌≤◌, ◌≡◌, ◌≢◌, ◌⊎◌, refl, ap, sym, ◌∙◌, subst, Option, none, some, List, [],
  ◌∷◌, length, take, inl, inr, arith,
}
use rdapify.Base.Text.{Text}
use rdapify.Client.Availability.Many.{
  Answer, Slots, Task, drop, enumerate_from, set_slot, put_result, pull,
}

-- The element at a place, and membership.
abbrev pub nth : {A : Type 0} → ℕ → List A → Option A
nth n [] = none
nth zero (x ∷ l) = some x
nth (suc n) (x ∷ l) = nth n l

abbrev pub In : Task → List Task → Type 0
In t [] = ⊥
In t (u ∷ us) = (t ≡ u) ⊎ In t us

pub In-pull :
    (n : ℕ) (t : Task) (ts : List Task) (u : Task)
    → In u (t ∷ ts)
    → (u ≡ (pull n t ts).0) ⊎ In u (pull n t ts).1
unfolding pull
In-pull zero t ts u h = h
In-pull (suc n) t [] u h = h
In-pull (suc n) t (v ∷ ts) u (inl e) = inr (inl e)
In-pull (suc n) t (v ∷ ts) u (inr h) = elim (In-pull n v ts u h) [
  | inl e ↦ inl e
  | inr rest ↦ inr (inr rest)
]

pub pulled-In : (n : ℕ) (t : Task) (ts : List Task) → In (pull n t ts).0 (t ∷ ts)
unfolding pull
pulled-In zero t ts = inl refl
pulled-In (suc n) t [] = inl refl
pulled-In (suc n) t (v ∷ ts) = inr (pulled-In n v ts)

pub others-In :
    (n : ℕ) (t : Task) (ts : List Task) (u : Task) → In u (pull n t ts).1 → In u (t ∷ ts)
unfolding pull
others-In zero t ts u h = inr h
others-In (suc n) t [] u h = absurd h
others-In (suc n) t (v ∷ ts) u (inl e) = inl e
others-In (suc n) t (v ∷ ts) u (inr h) = inr (others-In n v ts u h)

pub length-pull : (n : ℕ) (t : Task) (ts : List Task) → length (pull n t ts).1 ≡ length ts
unfolding pull
length-pull zero t ts = refl
length-pull (suc n) t [] = refl
length-pull (suc n) t (v ∷ ts) = ap suc (length-pull n v ts)

pub nth_same_length :
    {A B : Type 0} (i : ℕ) (l : List A) (m : List B) (x : A)
    → length m ≡ length l
    → nth i l ≡ some x
    → (y : B) × (nth i m ≡ some y)
nth_same_length i [] m x same h = absurd cc
nth_same_length i (a ∷ l) [] x same h = absurd (omega (arith, same))
nth_same_length zero (a ∷ l) (b ∷ m) x same h = (b, refl)
nth_same_length (suc i) (a ∷ l) (b ∷ m) x same h = nth_same_length i l m x (omega (arith, same)) h

-- A result is put into its slot, and no other slot changes.
pub set_slot_lem :
    (n : ℕ) (a : Answer) (slots : Slots) (o : Option Answer)
    → nth n slots ≡ some o
    → (filled : Slots) × (set_slot n a slots ≡ some filled)
      × (nth n filled ≡ some (some a))
      × ((m : ℕ) → m ≢ n → nth m filled ≡ nth m slots)
      × (length filled ≡ length slots)
unfolding set_slot
set_slot_lem n a [] o h = absurd cc
set_slot_lem zero a (slot ∷ slots) o h = (some a ∷ slots, refl, refl, others, refl)
  where
    others : (m : ℕ) → m ≢ 0 → nth m (some a ∷ slots) ≡ nth m (slot ∷ slots)
    others zero apart = absurd (apart refl)
    others (suc m) apart = refl
set_slot_lem (suc n) a (slot ∷ slots) o h =
    let (filled, done, here, kept, size) = set_slot_lem n a slots o h in
    (slot ∷ filled, rw done refl, here, others filled kept, ap suc size)
  where
    others :
        (filled : Slots)
        → ((m : ℕ) → m ≢ n → nth m filled ≡ nth m slots)
        → (m : ℕ) → m ≢ suc n
        → nth m (slot ∷ filled) ≡ nth m (slot ∷ slots)
    others filled kept zero apart = refl
    others filled kept (suc m) apart = kept m (λ e. apart (ap suc e))

-- A chunk and what is after it.
pub enumerate_split :
    (k base : ℕ) (l : List Text)
    → ((u : Task)
        → In u (enumerate_from base l)
        → In u (enumerate_from base (take k l)) ⊎ In u (enumerate_from (base + k) (drop k l)))
      × ((u : Task)
          → In u (enumerate_from base (take k l)) ⊎ In u (enumerate_from (base + k) (drop k l))
          → In u (enumerate_from base l))
enumerate_split zero base l =
    let same : base + 0 ≡ base = omega arith in
    (
      λ u h. inr (subst (λ (b : ℕ). In u (enumerate_from b l)) (sym same) h),
      λ u h. elim h [
        | inl n ↦ absurd n
        | inr i ↦ subst (λ (b : ℕ). In u (enumerate_from b l)) same i
      ],
    )
enumerate_split (suc k) base [] = (λ u h. absurd h, λ u h. elim h [ inl n ↦ n | inr n ↦ n ])
enumerate_split (suc k) base (name ∷ l) =
    let same : suc base + k ≡ base + suc k = omega arith in
    let (out, back) = enumerate_split k (suc base) l in
    (
      λ u h. elim h [
        | inl e ↦ inl (inl e)
        | inr i ↦ elim (out u i) [
          | inl a ↦ inl (inr a)
          | inr b ↦ inr (subst (λ (c : ℕ). In u (enumerate_from c (drop k l))) same b)
        ]
      ],
      λ u h. elim h [
        | inl i ↦ elim i [ inl e ↦ inl e | inr a ↦ inr (back u (inl a)) ]
        | inr b ↦
            inr (back u (inr (subst (λ (c : ℕ). In u (enumerate_from c (drop k l))) (sym same) b)))
      ],
    )

pub length-enumerate_from : (base : ℕ) (l : List Text) → length (enumerate_from base l) ≡ length l
length-enumerate_from base [] = refl
length-enumerate_from base (name ∷ l) = ap suc (length-enumerate_from (suc base) l)

length-drop_le : {A : Type 0} (k : ℕ) (l : List A) → length (drop k l) ≤ length l
length-drop_le zero l = omega arith
length-drop_le (suc k) [] = omega arith
length-drop_le (suc k) (x ∷ l) = omega (arith, length-drop_le k l)

pub length-drop :
    {A : Type 0} (k : ℕ) (x : A) (l : List A) → 1 ≤ k → length (drop k (x ∷ l)) ≤ length l
length-drop zero x l some_room = absurd (omega (arith, some_room))
length-drop (suc k) x l some_room = length-drop_le k l

-- The tasks and the names.
pub enumerated :
    (base i : ℕ) (name : Text) (l : List Text)
    → In (i, name) (enumerate_from base l)
    → (j : ℕ) × (i ≡ base + j) × (nth j l ≡ some name)
enumerated base i name [] h = absurd h
enumerated base i name (other ∷ l) (inl e) =
    (0, ap (λ (u : Task). u.0) e ∙ omega arith, ap (λ (u : Task). some u.1) (sym e))
enumerated base i name (other ∷ l) (inr h) =
    let (j, e, there) = enumerated (suc base) i name l h in (suc j, e ∙ omega arith, there)

pub nth-In :
    (base j : ℕ) (name : Text) (l : List Text)
    → nth j l ≡ some name
    → In (base + j, name) (enumerate_from base l)
nth-In base j name [] h = absurd cc
nth-In base zero name (other ∷ l) h = inl (pair (omega arith) (some-injective name other (sym h)))
  where
    pair : {a b : ℕ} {x y : Text} → a ≡ b → x ≡ y → ◌≡◌ {A = Task} (a, x) (b, y)
    pair e f = cc
nth-In base (suc j) name (other ∷ l) h = inr (
    subst (λ (k : ℕ). In (k, name) (enumerate_from (suc base) l)) (omega arith)
      (nth-In (suc base) j name l h))

-- The end of a task, whose slot is empty or holds the same already.
pub put_result_lem :
    (n : ℕ) (o : Option Answer) (slots : Slots)
    → (nth n slots ≡ some o) ⊎ (nth n slots ≡ some none)
    → (filled : Slots) × (put_result o n slots ≡ some filled)
      × (nth n filled ≡ some o)
      × ((m : ℕ) → m ≢ n → nth m filled ≡ nth m slots)
      × (length filled ≡ length slots)
unfolding put_result
put_result_lem n none slots (inl h) = (slots, refl, h, (λ m apart. refl), refl)
put_result_lem n none slots (inr h) = (slots, refl, h, (λ m apart. refl), refl)
put_result_lem n (some a) slots (inl h) = set_slot_lem n a slots (some a) h
put_result_lem n (some a) slots (inr h) = set_slot_lem n a slots none h

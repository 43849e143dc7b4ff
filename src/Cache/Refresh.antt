-- ===== src/Cache/Refresh.antt =====
-- The single flight of refreshes: any sequence of claims and of guards dropped.
use rdapify.Base.{
  sym, subst, ℕ, suc, ◌+◌, ◌≤◌, ◌<◌, ◌≡◌, refl, ap, Bool, true, false, List, [], ◌∷◌, leb, length,
  any, if◌then◌else◌, arith, Bool-cases, inl, inr, if-both,
}
use rdapify.Base.Text.{Text, text_eq, text_eq_iff}
use rdapify.Cache.{
  MemoryCache, with_config, try_acquire_refresh, release, drop_key, max_inflight_refreshes,
}

-- A claim by some task, with the number of refreshes in flight that it has read, or the guard of a key dropped by the task that holds it.
pub data Step : Type 0 where
  claims : ℕ → Text → Step
  drops : Text → Step

-- The cache, and the keys of the guards that are held.
abbrev pub Flights : Type 0
Flights = MemoryCache × List Text

abbrev granted : Text → Bool × MemoryCache → List Text → Flights
granted key (true, c) guards = (c, key ∷ guards)
granted key (false, c) guards = (c, guards)

-- Only a guard that is held can be dropped.
unfoldable pub step : Step → Flights → Flights
step (claims n key) (c, guards) = granted key (try_acquire_refresh n key c) guards
step (drops key) (c, guards) =
    if any (text_eq key) guards then (release key c, drop_key key guards) else (c, guards)

unfoldable pub run : List Step → Flights → Flights
run [] s = s
run (x ∷ xs) s = run xs (step x s)

-- How many guards of a key are held.
abbrev pub guards_of : Text → List Text → ℕ
guards_of key [] = 0
guards_of key (k ∷ keys) = (if text_eq key k then 1 else 0) + guards_of key keys

-- What holds between any two steps.
pub record IsSingle (s : Flights) : Type 0 where
  pub agree : s.0.in_flight ≡ s.1
  pub single : (key : Text) → guards_of key s.1 ≤ 1

free_guards :
    (key : Text) (keys : List Text) → any (text_eq key) keys ≡ false → guards_of key keys ≡ 0
unfolding any
free_guards key [] h = refl
free_guards key (k ∷ keys) h = ground (arith, free_guards key keys)

drop_key-le :
    (key other : Text) (keys : List Text)
    → guards_of other (drop_key key keys) ≤ guards_of other keys
unfolding drop_key
drop_key-le key other [] = omega arith
drop_key-le key other (k ∷ keys) = ground (arith, drop_key-le key other keys)

length-drop_key :
    (key : Text) (keys : List Text)
    → any (text_eq key) keys ≡ true
    → suc (length (drop_key key keys)) ≡ length keys
unfolding drop_key any
length-drop_key key [] h = absurd (ground arith)
length-drop_key key (k ∷ keys) h = ground (arith, length-drop_key key keys)

claimed_single :
    (key other : Text) (guards : List Text)
    → any (text_eq key) guards ≡ false
    → guards_of other guards ≤ 1
    → guards_of other (key ∷ guards) ≤ 1
claimed_single key other guards free h = elim (Bool-cases (text_eq other key)) [
  | inl e ↦
      let none_held =
        subst (λ k. guards_of k guards ≡ 0) (sym ((text_eq_iff other key).0 e))
          (free_guards key guards free) in
      ground arith
  | inr e ↦ ground arith
]

step-IsSingle : (x : Step) (s : Flights) → IsSingle s → IsSingle (step x s)
unfolding step try_acquire_refresh release
step-IsSingle (claims n key) (c, guards) i =
    if-both (λ (r : Bool × MemoryCache). IsSingle (granted key r guards))
      (leb max_inflight_refreshes n) _ _ (λ full. record { agree = i.agree; single = i.single })
      (λ room.
        if-both (λ (r : Bool × MemoryCache). IsSingle (granted key r guards))
          (any (text_eq key) c.in_flight) _ _
          (λ taken. record { agree = i.agree; single = i.single })
          (λ free. record {
            agree = ap (λ keys. key ∷ keys) i.agree;
            single = λ other.
                claimed_single key other guards
                  (subst (λ keys. any (text_eq key) keys ≡ false) i.agree free) (i.single other);
          }))
step-IsSingle (drops key) (c, guards) i =
    if-both IsSingle (any (text_eq key) guards) _ _
      (λ held. record {
        agree = ap (drop_key key) i.agree;
        single = λ other. omega (arith, drop_key-le key other guards, i.single other);
      })
      (λ idle. i)

run-IsSingle : (xs : List Step) (s : Flights) → IsSingle s → IsSingle (run xs s)
unfolding run
run-IsSingle [] s i = i
run-IsSingle (x ∷ xs) s i = run-IsSingle xs (step x s) (step-IsSingle x s i)

-- Each claim of a run has read at most so many too few.
abbrev pub ReadsWithin : ℕ → List Step → Flights → Type 0
ReadsWithin k [] s = Unit
ReadsWithin k (claims n key ∷ xs) s =
    (length s.1 ≤ n + k) × ReadsWithin k xs (step (claims n key) s)
ReadsWithin k (drops key ∷ xs) s = ReadsWithin k xs (step (drops key) s)

claimed_below :
    (k n : ℕ) (key : Text) (s : Flights)
    → length s.1 ≤ n + k
    → length s.1 ≤ max_inflight_refreshes + k
    → length (step (claims n key) s).1 ≤ max_inflight_refreshes + k
unfolding step try_acquire_refresh
claimed_below k n key (c, guards) read below =
    if-both
      (λ (r : Bool × MemoryCache). length (granted key r guards).1 ≤ max_inflight_refreshes + k)
      (leb max_inflight_refreshes n) _ _ (λ full. below)
      (λ room.
        if-both
          (λ (r : Bool × MemoryCache). length (granted key r guards).1 ≤ max_inflight_refreshes + k)
          (any (text_eq key) c.in_flight) _ _ (λ taken. below)
          (λ free. let few : n < max_inflight_refreshes = ground arith in omega (arith, read, few)))

dropped_below :
    (k : ℕ) (key : Text) (s : Flights)
    → length s.1 ≤ max_inflight_refreshes + k
    → length (step (drops key) s).1 ≤ max_inflight_refreshes + k
unfolding step
dropped_below k key (c, guards) below =
    if-both (λ (f : Flights). length f.1 ≤ max_inflight_refreshes + k) (any (text_eq key) guards) _
      _ (λ held. omega (arith, length-drop_key key guards held, below)) (λ idle. below)

run_below :
    (k : ℕ) (xs : List Step) (s : Flights)
    → ReadsWithin k xs s
    → length s.1 ≤ max_inflight_refreshes + k
    → length (run xs s).1 ≤ max_inflight_refreshes + k
unfolding run
run_below k [] s reads below = below
run_below k (claims n key ∷ xs) s (read, reads) below =
    run_below k xs (step (claims n key) s) reads (claimed_below k n key s read below)
run_below k (drops key ∷ xs) s reads below =
    run_below k xs (step (drops key) s) reads (dropped_below k key s below)

-- However claims and drops are mixed on a new cache, and whatever the claims read of the number in
-- flight, the guards held are those that the cache has in flight, and never two of one key. The cap is as
-- soft as the readings: if none of them is short by more than a number, the guards never exceed the cap
-- by more than this number.
pub run-with_config-IsSingle :
    (ttl : ℕ) (xs : List Step)
    → IsSingle (run xs (with_config ttl, []))
      × ((k : ℕ)
          → ReadsWithin k xs (with_config ttl, [])
          → length (run xs (with_config ttl, [])).1 ≤ max_inflight_refreshes + k)
unfolding with_config
run-with_config-IsSingle ttl xs = (
  run-IsSingle xs (with_config ttl, []) (record { agree = refl; single = λ key. omega arith }),
  λ k reads. run_below k xs (with_config ttl, []) reads (omega arith),
)

drop_key_one :
    (key : Text) (keys : List Text)
    → any (text_eq key) keys ≡ true
    → suc (guards_of key (drop_key key keys)) ≡ guards_of key keys
unfolding drop_key any
drop_key_one key [] h = absurd (ground arith)
drop_key_one key (k ∷ keys) h = ground (arith, drop_key_one key keys)

no_guards :
    (key : Text) (keys : List Text) → guards_of key keys ≡ 0 → any (text_eq key) keys ≡ false
unfolding any
no_guards key [] h = refl
no_guards key (k ∷ keys) h = ground (arith, no_guards key keys)

claim_granted :
    (n : ℕ) (key : Text) (c : MemoryCache)
    → n < max_inflight_refreshes
    → any (text_eq key) c.in_flight ≡ false
    → (try_acquire_refresh n key c).0 ≡ true
unfolding try_acquire_refresh
claim_granted n key c room free = ground arith

dropped_is_free_in :
    (n : ℕ) (s : Flights) (key : Text)
    → n < max_inflight_refreshes
    → IsSingle s
    → any (text_eq key) s.1 ≡ true
    → (try_acquire_refresh n key (step (drops key) s).0).0 ≡ true
unfolding step release
dropped_is_free_in n (c, guards) key room i held =
    let free =
      no_guards key (drop_key key guards)
        (omega (arith, drop_key_one key guards held, i.single key)) in
    let same : drop_key key guards ≡ drop_key key c.in_flight = ap (drop_key key) (sym i.agree) in
    rw held (
      claim_granted n key (release key c) room
        (subst (λ keys. any (text_eq key) keys ≡ false) same free))

-- Once a guard that is held, after any claims and drops on a new cache, is dropped, its key can be claimed again at once, unless the claim reads that the cap is reached.
pub dropped_is_free :
    (n ttl : ℕ) (xs : List Step) (key : Text)
    → n < max_inflight_refreshes
    → any (text_eq key) (run xs (with_config ttl, [])).1 ≡ true
    → (try_acquire_refresh n key (step (drops key) (run xs (with_config ttl, []))).0).0 ≡ true
dropped_is_free n ttl xs key room held =
    dropped_is_free_in n (run xs (with_config ttl, [])) key room (run-with_config-IsSingle ttl xs).0
      held

-- ===== src/Core/Breaker/Keys.antt =====
-- Maps by origin, of which the registry of circuit_breaker.rs is one.
use rdapify.Base.{
  ap, ◌∙◌, Bool, none, if◌then◌else◌, ◌≡◌, refl, sym, subst, true, false, some, List, [], ◌∷◌,
  Bool-cases, Option-cases, inl, inr, arith,
}
use rdapify.Base.Text.{text_eq_iff, text_eq_refl}
use rdapify.Core.Breaker.{
  Origin, Registry, CircuitBreaker, origin_eq, lookup, insert, evict, found_or_made, get_or_create,
}

pub origin_eq→eq : (a b : Origin) → origin_eq a b ≡ true → a ≡ b
unfolding origin_eq
origin_eq→eq a b h =
    let scheme : a.scheme ≡ b.scheme = ground (arith, (text_eq_iff a.scheme b.scheme).0) in
    let host : a.host ≡ b.host = ground (arith, (text_eq_iff a.host b.host).0) in
    let port : a.port ≡ b.port = ground arith in cc (scheme, host, port)

pub origin_eq_refl : (a : Origin) → origin_eq a a ≡ true
unfolding origin_eq
origin_eq_refl a = ground (arith, text_eq_refl a.scheme, text_eq_refl a.host)

module _ {V : Type 0} where
  pub lookup-insert_same :
      (k : Origin) (v : V) (m : List (Origin × V)) → lookup k (insert k v m) ≡ some v
  unfolding lookup insert
  lookup-insert_same k v [] = ground (arith, origin_eq_refl k)
  lookup-insert_same k v ((j, u) ∷ m) = ground (arith, origin_eq_refl k, lookup-insert_same k v m)

  pub lookup-insert_other :
      (k l : Origin) (v : V) (m : List (Origin × V))
      → origin_eq k l ≡ false
      → lookup l (insert k v m) ≡ lookup l m
  unfolding lookup insert
  lookup-insert_other k l v [] h = ground (arith)
  lookup-insert_other k l v ((j, u) ∷ m) h = elim (Bool-cases (origin_eq j k)) [
    | inl e ↦
        let apart = subst (λ (x : Origin). origin_eq x l ≡ false) (sym (origin_eq→eq j k e)) h in
        ground arith
    | inr e ↦ ground (arith, lookup-insert_other k l v m h)
  ]

-- An entry is held, or it is gone.
pub lookup-evict :
    (holds : Origin → Bool) (k : Origin) (m : List (Origin × CircuitBreaker))
    → lookup k (evict holds m) ≡ (if holds k then lookup k m else none)
unfolding lookup evict
lookup-evict holds k [] = elim (Bool-cases (holds k)) [ inl e ↦ rw e refl | inr e ↦ rw e refl ]
lookup-evict holds k ((j, b) ∷ m) = elim (Bool-cases (origin_eq j k)) [
  | inl e ↦
      let same = ap holds (origin_eq→eq j k e) in
      elim (Bool-cases (holds k)) [
        | inl h ↦ rw (same ∙ h, h) (rw e refl)
        | inr h ↦ rw (same ∙ h) (lookup-evict holds k m ∙ rw (h) refl)
      ]
  | inr e ↦ elim (Bool-cases (holds j)) [
    | inl h ↦ rw h (rw e (lookup-evict holds k m))
    | inr h ↦ rw h (lookup-evict holds k m ∙ rw e refl)
  ]
]

-- Making a breaker for an origin leaves the breakers of the others alone, but for those dropped.
pub get_or_create_other :
    (holds : Origin → Bool) (o k : Origin) (reg : Registry)
    → origin_eq o k ≡ false
    → lookup k (get_or_create holds o reg).1.entries
      ≡ (if holds k then lookup k reg.entries else none)
unfolding get_or_create found_or_made
get_or_create_other holds o k reg h = elim (Option-cases (lookup o (evict holds reg.entries))) [
  | inl e ↦
      rw (e, get_or_create, found_or_made) (lookup-insert_other o k _ (evict holds reg.entries) h)
      ∙ lookup-evict holds k reg.entries
  | inr (b, e) ↦ rw (e, get_or_create, found_or_made) (lookup-evict holds k reg.entries)
]

-- A breaker that is held is found.
pub get_or_create_held :
    (holds : Origin → Bool) (o : Origin) (b : CircuitBreaker) (reg : Registry)
    → holds o ≡ true
    → lookup o reg.entries ≡ some b
    → (get_or_create holds o reg).0 ≡ b
unfolding get_or_create found_or_made
get_or_create_held holds o b reg h there =
    let found : lookup o (evict holds reg.entries) ≡ some b =
      lookup-evict holds o reg.entries ∙ rw h there in
    rw (found, get_or_create, found_or_made) refl

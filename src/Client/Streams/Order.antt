-- ===== src/Client/Streams/Order.antt =====
-- crates/rdapify-client/src/lib.rs: what a stream delivers, and the queries behind it.
use rdapify.Base.{
  ℕ, zero, suc, ◌+◌, ◌≤◌, ◌<◌, ◌≡◌, ◌⊎◌, refl, Bool, true, false, some, List, [], ◌∷◌, map, length,
  ◌==◌, arith, inl, inr, take, subst, ap,
}
use rdapify.Base.Text.{Text}
use rdapify.Base.Result.{Result}
use rdapify.Types.Error.{RdapError}
use rdapify.Client.{Parts, State, World}
use rdapify.Client.Queries as Queries
use rdapify.Client.Session.{Op, run, step}
use rdapify.Client.Streams.{
  Event, StreamConfig, event_of, produce, on_channel, stream_domain, stream_ip, stream_asn,
  stream_nameserver,
}

-- A channel of a size, as tokio documents it, over a stream of so many events: the consumer has taken
-- some when it leaves, and up to a buffer more have been sent by then, or the stream ends before.
pub record IsChannel (size : ℕ) (sends : ℕ → Bool) (taken ahead total : ℕ) : Type 0 where
  pub holds : 0 < size
  pub fits : ahead ≤ size
  pub there : (i : ℕ) → i < taken + ahead → sends i ≡ true
  pub gone : (sends (taken + ahead) ≡ false) ⊎ (total ≤ taken + ahead)

-- The events of all the queries, one after another.
abbrev pub all_events :
    {Response : Type 0}
    → (Text → State → Result RdapError Response × State)
    → List Text
    → State
    → List (Event Response)
all_events query [] s = []
all_events query (name ∷ names) s =
    event_of name (query name s).0 ∷ all_events query names (query name s).1

take-nil : {A : Type 0} (n : ℕ) → ◌≡◌ {A = List A} (take n []) []
take-nil zero = refl
take-nil (suc n) = refl

take-take : {A : Type 0} (n m : ℕ) (l : List A) → take n (take (n + m) l) ≡ take n l
take-take zero m l = refl
take-take (suc n) m [] = rw (take-nil (suc n + m)) refl
take-take (suc n) m (x ∷ l) =
    let more : suc n + m ≡ suc (n + m) = omega arith in rw more (ap (λ t. x ∷ t) (take-take n m l))

length-take_le : {A : Type 0} (n : ℕ) (l : List A) → length (take n l) ≤ n
length-take_le zero l = omega arith
length-take_le (suc n) [] = omega arith
length-take_le (suc n) (x ∷ l) = omega (arith, length-take_le n l)

module _ (w : World) (p : Parts) where
  module _ {Response : Type 0} (query : Text → State → Result RdapError Response × State)
      (op : Text → Op)
      (same : (name : Text) (s : State) → step w p (op name) s ≡ (query name s).1) where
    produce_lem :
        (sends : ℕ → Bool) (place count : ℕ) (names : List Text) (s : State)
        → ((i : ℕ) → i < count → sends (place + i) ≡ true)
        → (sends (place + count) ≡ false) ⊎ (length names ≤ count)
        → produce query sends place names s
          ≡ (take count (all_events query names s), run w p (map op (take (suc count) names)) s)
    unfolding produce run
    produce_lem sends place zero [] s there gone = refl
    produce_lem sends place (suc count) [] s there gone = refl
    produce_lem sends place zero (name ∷ names) s there (inr short) = absurd (omega (arith, short))
    produce_lem sends place zero (name ∷ names) s there (inl stop) =
        let left : sends place ≡ false = subst (λ (n : ℕ). sends n ≡ false) (omega arith) stop in
        rw left (rw (same name s, run) refl)
    produce_lem sends place (suc count) (name ∷ names) s there gone =
        let on : sends place ≡ true =
          subst (λ (n : ℕ). sends n ≡ true) (omega arith) (there 0 (omega arith)) in
        let rest =
          produce_lem sends (suc place) count names (query name s).1
            (λ i le. subst (λ (n : ℕ). sends n ≡ true) (omega arith) (there (suc i) (omega arith)))
            (elim gone [
              | inl e ↦ inl (subst (λ (n : ℕ). sends n ≡ false) (omega arith) e)
              | inr short ↦ inr (omega arith)
            ]) in
        rw on (rw (same name s, run) (rw rest refl))

    streamed :
        (sends : ℕ → Bool) (taken ahead : ℕ) (names : List Text) (config : StreamConfig) (s : State)
        → IsChannel config.buffer_size sends taken ahead (length names)
        → on_channel config taken (produce query sends 0 names s)
          ≡ some (
            take taken (all_events query names s),
            run w p (map op (take (suc (taken + ahead)) names)) s,
          )
    streamed sends taken ahead names config s c =
        let open_channel : (config.buffer_size == 0) ≡ false = let h = c.holds in ground arith in
        let made =
          produce_lem sends 0 (taken + ahead) names s
            (λ i le. subst (λ (n : ℕ). sends n ≡ true) (omega arith) (c.there i le))
            (subst (λ (n : ℕ). (sends n ≡ false) ⊎ (length names ≤ taken + ahead)) (omega arith)
              c.gone) in
        rw (open_channel, made)
          (ap
            (λ (l : List (Event Response)).
              some (l, run w p (map op (take (suc (taken + ahead)) names)) s))
            (take-take taken ahead (all_events query names s)))

  -- The four streams, over a channel of a positive size. A consumer that takes a number of events and
  -- leaves gets the events of that many first queries, in the order of the list, each with its response
  -- or the query's own error. The client has then made those queries, and one for each event that was
  -- still in the channel, and makes at most one more: all told not more than a buffer and one past what
  -- was taken. So a consumer that takes as many events as there are queries gets one for each.
  pub streams_lem :
      (sends : ℕ → Bool) (taken ahead : ℕ) (names : List Text) (config : StreamConfig) (s : State)
      → IsChannel config.buffer_size sends taken ahead (length names)
      → (stream_domain w p sends taken names config s
          ≡ some (
            take taken (all_events (Queries.domain w p) names s),
            run w p (map Op.domain (take (suc (taken + ahead)) names)) s,
          ))
        × (stream_ip w p sends taken names config s
            ≡ some (
              take taken (all_events (Queries.ip w p) names s),
              run w p (map Op.ip (take (suc (taken + ahead)) names)) s,
            ))
        × (stream_asn w p sends taken names config s
            ≡ some (
              take taken (all_events (Queries.asn w p) names s),
              run w p (map Op.asn (take (suc (taken + ahead)) names)) s,
            ))
        × (stream_nameserver w p sends taken names config s
            ≡ some (
              take taken (all_events (Queries.nameserver w p) names s),
              run w p (map Op.nameserver (take (suc (taken + ahead)) names)) s,
            ))
        × (length (take (suc (taken + ahead)) names) ≤ suc (taken + config.buffer_size))
  unfolding stream_domain stream_ip stream_asn stream_nameserver step
  streams_lem sends taken ahead names config s c = (
    streamed (Queries.domain w p) Op.domain (λ name s'. refl) sends taken ahead names config s c,
    streamed (Queries.ip w p) Op.ip (λ name s'. refl) sends taken ahead names config s c,
    streamed (Queries.asn w p) Op.asn (λ name s'. refl) sends taken ahead names config s c,
    streamed (Queries.nameserver w p) Op.nameserver (λ name s'. refl) sends taken ahead names config
        s c,
    (let h = c.fits in omega (arith, length-take_le (suc (taken + ahead)) names, h)),
  )

-- ===== src/Service/Batches.antt =====
-- crates/rdap-service/src/handlers/batch.rs: the items of a batch.
use rdapify.Base.{
  ℕ, suc, min, max, ◌<◌, ◌≤◌, ◌≡◌, ◌⊎◌, ◌↔◌, refl, true, false, none, some, List, [], ◌∷◌, map,
  length, arith, ltb, inl, inr, Bool-cases, ltb→lt, ltb→ge,
}
use rdapify.Base.Optional.{map_some, unwrap_or}
use rdapify.Base.Text.{Text}
use rdapify.Base.Result.{Result, ok, err, ◌>>=◌}
use rdapify.Types.Error as Error
use rdapify.Types.Error.{RdapError}
use rdapify.Types.Response.{DomainResponse, expiration_date}
use rdapify.Client.{Parts, State, World, normalise_domain}
use rdapify.Client.Queries as Client
use rdapify.Client.Availability.{domain_available, judge}
use rdapify.Batch.{
  BatchQuery, RdapResponse, BatchItemResult, failed, ErrorCategory, retryable, not_found,
  invalid_input, rate_limited, fatal, Runtime, all_ran, sent, run_stream, process_query, item_of,
  classify_error, category_of,
}
use rdapify.Batch.Categories.{IsMissing, category_of_iff}
use rdapify.Service.{BatchRequest, BatchDomainResult, item_for, items, batch_lookup, max_batch_size}

-- `StreamExt::buffered` documents that the results come out in the order of the stream.
abbrev pub IsInOrder : Runtime → Type 0
IsInOrder x = (n : ℕ) (results : List BatchItemResult) → 1 ≤ n → x.buffered n results ≡ results

-- What the client's query for the name at each place comes to, among the others.
abbrev pub Runs : Runtime → (ℕ → Text → Result RdapError DomainResponse) → Type 0
Runs x outcome =
    (place : ℕ) (name : Text)
    → x.ran place (BatchQuery.domain name)
      ≡ item_of (outcome place name >>= λ a. ok (RdapResponse.domain a))

-- What is said of a name: that it is taken, with the date of its expiry; that it is available, if its
-- error is a 404 or that there is no server; the error else.
abbrev pub Says : Text → Result RdapError DomainResponse → BatchDomainResult → Type 0
Says name (ok response) item = item ≡ record {
  domain = name;
  available = false;
  expires_at = expiration_date response;
  error = none;
}
Says name (err e) item =
    (IsMissing e
      → item ≡ record { domain = name; available = true; expires_at = none; error = none })
    × ((¬ IsMissing e)
        → item ≡ record { domain = name; available = false; expires_at = none; error = some e })

-- Item by item, from a place on.
abbrev pub SaysAll :
    (ℕ → Text → Result RdapError DomainResponse) → ℕ → List Text → List BatchDomainResult → Type 0
SaysAll outcome place [] [] = Unit
SaysAll outcome place (name ∷ names) (item ∷ l) =
    Says name (outcome place name) item × SaysAll outcome (suc place) names l
SaysAll outcome place _ _ = ⊥

sent_all : (place : ℕ) (l : List BatchItemResult) → sent (λ n. true) place l ≡ l
unfolding sent
sent_all place [] = refl
sent_all place (r ∷ rs) = rw (sent_all (suc place) rs) refl

failed_total :
    (name : Text) (e : RdapError)
    → (item : BatchDomainResult) × (item_for name (failed (classify_error e)) ≡ some item)
      × Says name (err e) item
unfolding item_for classify_error
failed_total name e = at (category_of e) refl
  where
    missing_iff : (category_of e ≡ not_found) ↔ IsMissing e
    missing_iff = (category_of_iff e).2

    Total : Type 0
    Total =
        (item : BatchDomainResult) × (item_for name (failed (classify_error e)) ≡ some item)
        × Says name (err e) item

    free : BatchDomainResult
    free = record { domain = name; available = true; expires_at = none; error = none }

    taken : BatchDomainResult
    taken = record { domain = name; available = false; expires_at = none; error = some e }

    at : (c : ErrorCategory) → category_of e ≡ c → Total
    at not_found same =
        (free, rw same refl, (λ missing. refl, λ other. absurd (other (missing_iff.0 same))))
    at retryable same = (
      taken,
      rw same refl,
      (λ missing. let found = missing_iff.1 missing in absurd (ground arith), λ other. refl),
    )
    at invalid_input same = (
      taken,
      rw same refl,
      (λ missing. let found = missing_iff.1 missing in absurd (ground arith), λ other. refl),
    )
    at rate_limited same = (
      taken,
      rw same refl,
      (λ missing. let found = missing_iff.1 missing in absurd (ground arith), λ other. refl),
    )
    at fatal same = (
      taken,
      rw same refl,
      (λ missing. let found = missing_iff.1 missing in absurd (ground arith), λ other. refl),
    )

item_for_total :
    (name : Text) (r : Result RdapError DomainResponse)
    → (item : BatchDomainResult) × (item_for name (item_of (r >>= λ a. ok (RdapResponse.domain a)))
        ≡ some item)
      × Says name r item
unfolding item_for
item_for_total name (ok response) = (_, refl, refl)
item_for_total name (err e) = failed_total name e

module _ (x : Runtime) (outcome : ℕ → Text → Result RdapError DomainResponse)
    (in_order : IsInOrder x) (runs : Runs x outcome) where
  items_total :
      (place : ℕ) (names : List Text)
      → (l : List BatchDomainResult) × (items names (all_ran x place (map BatchQuery.domain names))
          ≡ some l)
        × SaysAll outcome place names l
  unfolding items
  items_total place [] = ([], refl, tt)
  items_total place (name ∷ names) =
      let (item, made, said) = item_for_total name (outcome place name) in
      let (l, rest, all_said) = items_total (suc place) names in
      (item ∷ l, rw (runs place name) (rw made (rw rest refl)), (said, all_said))

  -- Where the executor's ordered adapter keeps the order of its stream, whatever the query at each place
  -- comes to: a batch is refused, as an invalid input, if it is empty or has more than a hundred names. Any
  -- other batch is answered, without a panic, by one item for each name in the order of the names, and each
  -- says of its own name what the query at its place came to: taken, with the date of its expiry, for an
  -- answer; available for a 404 or where there is no server; and else the error, and not available.
  pub batch_lookup_lem :
      (request : BatchRequest)
      → (((length request.queries ≡ 0) ⊎ (100 < length request.queries))
          × (batch_lookup x request ≡ err Error.invalid_input))
        ⊎ ((0 < length request.queries)
            × (length request.queries ≤ 100)
            × (l : List BatchDomainResult) × (batch_lookup x request ≡ ok (some l))
            × SaysAll outcome 0 request.queries l)
  unfolding batch_lookup run_stream
  batch_lookup_lem request = at request.queries
    where
      at :
          (queries : List Text)
          → (((length queries ≡ 0) ⊎ (100 < length queries))
              × (batch_lookup x (record request { queries = queries }) ≡ err Error.invalid_input))
            ⊎ ((0 < length queries)
                × (length queries ≤ 100)
                × (l : List BatchDomainResult) × (batch_lookup x
                      (record request { queries = queries })
                    ≡ ok (some l))
                × SaysAll outcome 0 queries l)
      at [] = inl (inl refl, refl)
      at (q ∷ qs) = elim (Bool-cases (ltb max_batch_size (length (q ∷ qs)))) [
        | inl e ↦ inl (inr (ltb→lt 100 (length (q ∷ qs)) e), rw e refl)
        | inr e ↦
            let (l, made, said) = items_total 0 (q ∷ qs) in
            let concurrency = unwrap_or (map_some (min 50) request.concurrency) 10 in
            let results = all_ran x 0 (map BatchQuery.domain (q ∷ qs)) in
            let kept = in_order (max concurrency 1) results (omega arith) in
            inr (
              omega arith,
              ltb→ge 100 (length (q ∷ qs)) e,
              l,
              rw e (rw (kept, sent_all 0 results) (rw made refl)),
              said,
            )
      ]

-- Where the executor keeps the order of its stream: a name that the client accepts, and for which it
-- finds no server, is reported as available by a batch of this name alone, while `domain_available` of
-- the client fails for it.
pub unserved_is_available :
    (w : World) (p : Parts) (x : Runtime) (typed name query : Text) (s : State)
    → IsInOrder x
    → x.ran 0 (BatchQuery.domain typed) ≡ (process_query w p (BatchQuery.domain typed) s).0
    → normalise_domain w.domain_to_ascii typed ≡ ok name
    → (Client.domain w p typed s).0 ≡ err (Error.no_server_found query)
    → (batch_lookup x (record { queries = typed ∷ []; concurrency = none })
        ≡ ok (
            some
              (record { domain = typed; available = true; expires_at = none; error = none } ∷ [])))
      × ((domain_available w p typed s).0 ≡ err (Error.no_server_found query))
unfolding batch_lookup run_stream sent items process_query item_for classify_error category_of
    domain_available judge
unserved_is_available w p x typed name query s in_order ran normal unserved = (
  rw (in_order 10 (all_ran x 0 (BatchQuery.domain typed ∷ [])) (omega arith))
      (rw ran (rw unserved refl)),
  rw normal (rw unserved refl),
)

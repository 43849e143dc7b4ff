-- ===== src/Config/Bounds.antt =====
-- crates/rdap-config/src: what settings `validate_config` accepts and `load_config` gives.
use rdapify.Base.{
  ℕ, ◌≤◌, ◌<◌, ◌≡◌, ◌↔◌, refl, false, Option, none, some, List, [], ◌∷◌, arith, any, subst,
}
use rdapify.Base.Text.{Text}
use rdapify.Base.Result.{ok, err, ◌>>◌, bind_ok}
use rdapify.Config.{F64, nan, infinity, minus_infinity, plus, minus, at_least, RdapifyConfig}
use rdapify.Config.Load.{
  Checked, check_range, check_port, unordered, out_of_place, check_buckets, validate_config,
  load_config, overlaid_config, Host,
}

-- Positive finite numbers, each below the next.
abbrev pub IsPositive : F64 → Type 0
IsPositive (plus n) = 0 < n
IsPositive _ = ⊥

abbrev pub Below : F64 → F64 → Type 0
Below (plus m) (plus n) = m < n
Below _ _ = ⊥

abbrev pub Rising : List F64 → Type 0
Rising [] = Unit
Rising (a ∷ []) = IsPositive a
Rising (a ∷ b ∷ rest) = IsPositive a × Below a b × Rising (b ∷ rest)

abbrev pub BucketsFit : Option (List F64) → Type 0
BucketsFit none = Unit
BucketsFit (some []) = ⊥
BucketsFit (some (a ∷ rest)) = Rising (a ∷ rest)

-- The bounds of the table in validate.rs.
pub record InBounds (c : RdapifyConfig) : Type 0 where
  pub timeout : (1 ≤ c.rdap.timeout_seconds) × (c.rdap.timeout_seconds ≤ 30)
  pub response : (1 ≤ c.rdap.max_response_size_mb) × (c.rdap.max_response_size_mb ≤ 20)
  pub ttl : (60 ≤ c.cache.ttl_seconds) × (c.cache.ttl_seconds ≤ 86400)
  pub monitors : (1 ≤ c.monitoring.workers) × (c.monitoring.workers ≤ 32)
  pub hooks : (1 ≤ c.webhooks.workers) × (c.webhooks.workers ≤ 32)
  pub hook_timeout : (1 ≤ c.webhooks.timeout_seconds) × (c.webhooks.timeout_seconds ≤ 60)
  pub grace : c.license.grace_days ≤ 30
  pub metrics_port : 1 ≤ c.metrics.port
  pub server_port : 1 ≤ c.server.port
  pub slow :
      (1 ≤ c.metrics.slow_request_threshold_ms) × (c.metrics.slow_request_threshold_ms ≤ 60000)
  pub origins : (1 ≤ c.metrics.top_n_origins) × (c.metrics.top_n_origins ≤ 1024)
  pub buckets : BucketsFit c.metrics.histogram_buckets

-- A check and the checks after it, with what they stand for.
then_iff :
    {P Q : Type 0} {a b : Checked}
    → (a ≡ ok tt) ↔ P
    → (b ≡ ok tt) ↔ Q
    → ((a >> b) ≡ ok tt) ↔ (P × Q)
then_iff {a = ok _} (p, p') (q, q') = (λ h. (p refl, q h), λ h. q' h.1)
then_iff {a = err e} (p, p') (q, q') =
    (λ h. absurd (ground arith), λ h. absurd (let e' = p' h.0 in ground arith))

check_range_iff :
    (field : Text) (value min max : ℕ)
    → (check_range field value min max ≡ ok tt) ↔ ((min ≤ value) × (value ≤ max))
unfolding check_range
check_range_iff field value min max = (λ h. ground arith, λ h. ground arith)

check_port_iff : (field : Text) (port : ℕ) → (check_port field port ≡ ok tt) ↔ (1 ≤ port)
unfolding check_port
check_port_iff field port = (λ h. ground arith, λ h. ground arith)

out_of_place-IsPositive_iff : (a : F64) → (out_of_place a ≡ false) ↔ IsPositive a
out_of_place-IsPositive_iff (plus n) = (λ h. ground arith, λ h. ground arith)
out_of_place-IsPositive_iff _ = (λ h. absurd (ground arith), λ h. absurd h)

at_least-Below_iff : (a b : F64) → IsPositive a → IsPositive b → (at_least a b ≡ false) ↔ Below a b
unfolding at_least
at_least-Below_iff (plus m) (plus n) p q = (λ h. ground arith, λ h. ground arith)
at_least-Below_iff (plus m) nan p q = absurd q
at_least-Below_iff (plus m) infinity p q = absurd q
at_least-Below_iff (plus m) minus_infinity p q = absurd q
at_least-Below_iff (plus m) (minus n) p q = absurd q
at_least-Below_iff nan b p q = absurd p
at_least-Below_iff infinity b p q = absurd p
at_least-Below_iff minus_infinity b p q = absurd p
at_least-Below_iff (minus m) b p q = absurd p

head-IsPositive : (b : F64) (rest : List F64) → Rising (b ∷ rest) → IsPositive b
head-IsPositive b [] r = r
head-IsPositive b (c ∷ rest) r = r.0

unordered-Rising : (l : List F64) → unordered l ≡ false → any out_of_place l ≡ false → Rising l
unfolding unordered any
unordered-Rising [] o p = tt
unordered-Rising (a ∷ []) o p = (out_of_place-IsPositive_iff a).0 (ground arith)
unordered-Rising (a ∷ b ∷ rest) o p =
    let later : unordered (b ∷ rest) ≡ false = ground arith in
    let placed : any out_of_place (b ∷ rest) ≡ false = ground arith in
    let rises = unordered-Rising (b ∷ rest) later placed in
    let here = (out_of_place-IsPositive_iff a).0 (ground arith) in
    (here, (at_least-Below_iff a b here (head-IsPositive b rest rises)).0 (ground arith), rises)

Rising-unordered : (l : List F64) → Rising l → (unordered l ≡ false) × (any out_of_place l ≡ false)
unfolding unordered any
Rising-unordered [] r = (refl, refl)
Rising-unordered (a ∷ []) r = let here = (out_of_place-IsPositive_iff a).1 r in (refl, rw here refl)
Rising-unordered (a ∷ b ∷ rest) (here, below, rises) =
    let (o, p) = Rising-unordered (b ∷ rest) rises in
    let apart = (at_least-Below_iff a b here (head-IsPositive b rest rises)).1 below in
    let placed = (out_of_place-IsPositive_iff a).1 here in (rw apart o, rw placed p)

check_buckets_iff : (found : Option (List F64)) → (check_buckets found ≡ ok tt) ↔ BucketsFit found
unfolding check_buckets
check_buckets_iff none = (λ h. tt, λ h. refl)
check_buckets_iff (some []) = (λ h. absurd (ground arith), λ h. absurd h)
check_buckets_iff (some (a ∷ rest)) = (
  λ h. unordered-Rising (a ∷ rest) (ground arith) (ground arith),
  λ r. let (o, p) = Rising-unordered (a ∷ rest) r in rw o (rw p refl),
)

-- The settings are accepted exactly when the numbers that have bounds are within them (the timeouts of
-- RDAP, 1 to 30, and of webhooks, 1 to 60, the size of a response, 1 to 20, the time to live in the cache,
-- 60 to 86400, the workers of monitoring and of webhooks, 1 to 32, the grace days, up to 30, the threshold
-- for slow requests, 1 to 60000, and the number of top origins, 1 to 1024), the two ports are not 0, and
-- the buckets, if given, are a nonempty list of positive finite numbers, each below the next. No other
-- setting is looked at: the entries of the cache, the interval and batch size of monitoring, the retries of
-- webhooks and the hours between refreshes and between revocation checks may be any numbers.
pub validate_config_iff : (c : RdapifyConfig) → (validate_config c ≡ ok tt) ↔ InBounds c
unfolding validate_config
validate_config_iff c =
    let (down, up) = then_iff (check_range_iff _ c.rdap.timeout_seconds 1 30) (
      then_iff (check_range_iff _ c.rdap.max_response_size_mb 1 20) (
        then_iff (check_range_iff _ c.cache.ttl_seconds 60 86400) (
          then_iff (check_range_iff _ c.monitoring.workers 1 32) (
            then_iff (check_range_iff _ c.webhooks.workers 1 32) (
              then_iff (check_range_iff _ c.webhooks.timeout_seconds 1 60) (
                then_iff (check_range_iff _ c.license.grace_days 0 30) (
                  then_iff (check_port_iff _ c.metrics.port) (
                    then_iff (check_port_iff _ c.server.port) (
                      then_iff (check_range_iff _ c.metrics.slow_request_threshold_ms 1 60000) (
                        then_iff (check_range_iff _ c.metrics.top_n_origins 1 1024)
                          (check_buckets_iff c.metrics.histogram_buckets))))))))))) in
    (
      λ h.
          let (t, (r, (ttl, (m, (k, (kt, (g, (mp, (sp, (sl, (o, b))))))))))) = down h in
          record {
            timeout = t;
            response = r;
            ttl = ttl;
            monitors = m;
            hooks = k;
            hook_timeout = kt;
            grace = g.1;
            metrics_port = mp;
            server_port = sp;
            slow = sl;
            origins = o;
            buckets = b;
          },
      λ i. up (
        i.timeout,
        (
          i.response,
          (
            i.ttl,
            (
              i.monitors,
              (
                i.hooks,
                (
                  i.hook_timeout,
                  (
                    (omega arith, i.grace),
                    (i.metrics_port, (i.server_port, (i.slow, (i.origins, i.buckets)))),
                  ),
                ),
              ),
            ),
          ),
        ),
      ),
    )

-- Whatever the files and the environment hold, `load_config` gives settings within their bounds only.
pub load_config-InBounds :
    (h : Host) (path : Option Text) (c : RdapifyConfig) → load_config h path ≡ ok c → InBounds c
unfolding load_config
load_config-InBounds h path c loaded =
    let (config, _, checked) =
      bind_ok (overlaid_config h path) (λ config. validate_config config >> ok config) c loaded in
    let (_, valid, same) = bind_ok (validate_config config) (λ _. ok config) c checked in
    subst InBounds (let e : config ≡ c = ground arith in e) ((validate_config_iff config).0 valid)

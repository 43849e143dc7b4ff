-- ===== src/Cache.antt =====
-- crates/rdap-cache/src/lib.rs: the response cache. Times are nanoseconds of a clock that does not run
-- backwards (`Instant`); the clock reading is an argument. The hooks for metrics are left out.
--
-- The store is moka's. A `Keeps` stands for what moka has not dropped yet: it may drop any entry at any
-- time, by its capacity or by the expiry policy.
pub mod Freshness
pub mod Counters
pub mod Refresh
pub mod Store
pub mod Refines
pub mod Waiting
pub mod Entries
mod Tests
use rdapify.Base.{
  ℕ, suc, ◌+◌, ◌-◌, ◌*◌, ◌/◌, ◌%◌, ◌^◌, min, max, Bool, true, false, ◌&&◌, not, Option, none, some,
  List, [], ◌∷◌, leb, length, any, if◌then◌else◌,
}
use rdapify.Base.Text.{Text, text_eq}
use rdapify.Base.Text.Keyed.{get, put, remove}
use rdapify.Core.Validation.{Value}

pub data CacheValue : Type 0 where
  hit : Value → CacheValue
  negative : CacheValue

pub record Entry : Type 0 where
  pub value : CacheValue
  pub inserted_at : ℕ
  pub ttl : ℕ
  pub stale_ttl : ℕ

abbrev pub age : ℕ → Entry → ℕ
age now entry = now - entry.inserted_at

unfoldable pub is_fresh : ℕ → Entry → Bool
is_fresh now entry = leb (age now entry) entry.ttl

unfoldable pub is_in_stale_window : ℕ → Entry → Bool
is_in_stale_window now entry =
    not (leb (age now entry) entry.ttl) && leb (age now entry) (entry.ttl + entry.stale_ttl)

-- What the expiry policy tells moka.
unfoldable pub total_ttl : Entry → ℕ
total_ttl entry = entry.ttl + entry.stale_ttl

pub data CacheStatus : Type 0 where
  fresh stale : Value → CacheStatus
  absent miss : CacheStatus

abbrev pub seconds : ℕ → ℕ
seconds n = n * 1000000000

pub record CachePolicy : Type 0 where
  pub min_ttl : ℕ
  pub max_ttl : ℕ
  pub default_ttl : ℕ
  pub negative_ttl : ℕ

unfoldable pub with_default_ttl : ℕ → CachePolicy
with_default_ttl default_ttl = record {
  min_ttl = seconds 60;
  max_ttl = seconds 86400;
  default_ttl = default_ttl;
  negative_ttl = seconds 600;
}

unfoldable pub effective_ttl : CachePolicy → Option ℕ → ℕ
effective_ttl policy (some max_age) = min (max max_age policy.min_ttl) policy.max_ttl
effective_ttl policy none = policy.default_ttl

pub record MemoryCache : Type 0 where
  pub store : List (Text × Entry)
  pub default_ttl : ℕ
  -- u64 counters
  pub hits : ℕ
  pub misses : ℕ
  pub stale_hits : ℕ
  pub negative_hits : ℕ
  -- the keys with a refresh in flight
  pub in_flight : List Text
  pub refresh_dedup_total : ℕ
  pub refresh_capped_total : ℕ

unfoldable pub with_config : ℕ → MemoryCache
with_config ttl = record {
  store = [];
  default_ttl = ttl;
  hits = 0;
  misses = 0;
  stale_hits = 0;
  negative_hits = 0;
  in_flight = [];
  refresh_dedup_total = 0;
  refresh_capped_total = 0;
}

-- `fetch_add(1)`.
abbrev pub bump : ℕ → ℕ
bump n = (n + 1) % 2 ^ 64

abbrev pub missed : MemoryCache → MemoryCache
missed c = record c { misses = bump c.misses }

-- Which entries moka still holds at a time.
abbrev pub Keeps : Type 0
Keeps = ℕ → Text → Entry → Bool

pub found : Keeps → ℕ → Text → Option Entry → Option Entry
found keeps now key none = none
found keeps now key (some entry) = if keeps now key entry then some entry else none

pub status_of : ℕ → Text → Entry → CacheValue → MemoryCache → CacheStatus × MemoryCache
status_of now key entry negative c =
    if is_fresh now entry
    then (absent, record c { negative_hits = bump c.negative_hits })
    else (miss, missed (record c { store = remove key c.store }))
status_of now key entry (hit value) c =
    if is_fresh now entry
    then (fresh value, record c { hits = bump c.hits })
    else if is_in_stale_window now entry
    then (stale value, record c { stale_hits = bump c.stale_hits })
    else (miss, missed (record c { store = remove key c.store }))

pub status_at : ℕ → Text → Option Entry → MemoryCache → CacheStatus × MemoryCache
unfolding status_of
status_at now key none c = (miss, missed c)
status_at now key (some entry) c = status_of now key entry entry.value c

-- `CacheStatus::Negative` is written `absent`.
unfoldable pub get_status : Keeps → ℕ → Text → MemoryCache → CacheStatus × MemoryCache
unfolding found status_at
get_status keeps now key c = status_at now key (found keeps now key (get key c.store)) c

value_of : CacheStatus → Option Value
value_of (fresh value) = some value
value_of (stale value) = none
value_of absent = none
value_of miss = none

-- `MemoryCache::get`.
unfoldable pub get_fresh : Keeps → ℕ → Text → MemoryCache → Option Value × MemoryCache
unfolding value_of
get_fresh keeps now key c = let (status, c') = get_status keeps now key c in (value_of status, c')

abbrev pub stale_window : ℕ → ℕ
stale_window ttl = min (max (ttl / 5) (seconds 30)) (seconds 120)

unfoldable pub set_with_ttl : ℕ → Text → Value → ℕ → MemoryCache → MemoryCache
set_with_ttl now key value ttl c =
    let entry : Entry = record {
      value = hit value;
      inserted_at = now;
      ttl = ttl;
      stale_ttl = stale_window ttl;
    } in
    record c { store = put key entry c.store }

unfoldable pub set : ℕ → Text → Value → MemoryCache → MemoryCache
set now key value c = set_with_ttl now key value c.default_ttl c

unfoldable pub set_negative : ℕ → Text → ℕ → MemoryCache → MemoryCache
set_negative now key ttl c =
    let entry : Entry = record { value = negative; inserted_at = now; ttl = ttl; stale_ttl = 0 } in
    record c { store = put key entry c.store }

unfoldable pub clear : MemoryCache → MemoryCache
clear c = record c { store = [] }

abbrev pub max_inflight_refreshes : ℕ
max_inflight_refreshes = 4096

-- Whether the caller gets the guard of the key.
-- The first argument is what `DashMap::len` reads: it is approximate, and other tasks may claim keys
-- between this reading and the claim, which alone is atomic.
unfoldable pub try_acquire_refresh : ℕ → Text → MemoryCache → Bool × MemoryCache
try_acquire_refresh in_flight_len key c =
    if leb max_inflight_refreshes in_flight_len
    then (false, record c { refresh_capped_total = bump c.refresh_capped_total })
    else if any (text_eq key) c.in_flight
    then (false, record c { refresh_dedup_total = bump c.refresh_dedup_total })
    else (true, record c { in_flight = key ∷ c.in_flight })

-- The first of a key; a guard is dropped once.
unfoldable pub drop_key : Text → List Text → List Text
drop_key key [] = []
drop_key key (k ∷ keys) = let rest = drop_key key keys in if text_eq key k then keys else k ∷ rest

-- `Drop` of a `RefreshGuard`.
unfoldable pub release : Text → MemoryCache → MemoryCache
release key c = record c { in_flight = drop_key key c.in_flight }

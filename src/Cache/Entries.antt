-- ===== src/Cache/Entries.antt =====
-- crates/rdap-cache/src/lib.rs: the counts of a cache, and the removal of what moka has dropped. The
-- counts of entries are read after moka's pending tasks have run.
use rdapify.Base.{ℕ, Bool, List, [], ◌∷◌, length, ◌==◌, if◌then◌else◌}
use rdapify.Base.Text.{Text}
use rdapify.Cache.{Keeps, Entry, MemoryCache}

pub record CacheStats : Type 0 where
  pub hits : ℕ
  pub misses : ℕ
  pub stale : ℕ
  pub negative : ℕ

unfoldable pub stats : MemoryCache → CacheStats
stats c = record {
  hits = c.hits;
  misses = c.misses;
  stale = c.stale_hits;
  negative = c.negative_hits;
}

unfoldable pub refresh_dedup_count : MemoryCache → ℕ
refresh_dedup_count c = c.refresh_dedup_total

unfoldable pub refresh_capped_count : MemoryCache → ℕ
refresh_capped_count c = c.refresh_capped_total

unfoldable pub in_flight_count : MemoryCache → ℕ
in_flight_count c = length c.in_flight

abbrev kept : Keeps → ℕ → List (Text × Entry) → List (Text × Entry)
kept keeps now [] = []
kept keeps now ((key, entry) ∷ store) =
    if keeps now key entry then (key, entry) ∷ kept keeps now store else kept keeps now store

unfoldable pub evict_expired : Keeps → ℕ → MemoryCache → MemoryCache
evict_expired keeps now c = record c { store = kept keeps now c.store }

unfoldable pub len : Keeps → ℕ → MemoryCache → ℕ
unfolding evict_expired
len keeps now c = length (evict_expired keeps now c).store

unfoldable pub is_empty : Keeps → ℕ → MemoryCache → Bool
is_empty keeps now c = len keeps now c == 0

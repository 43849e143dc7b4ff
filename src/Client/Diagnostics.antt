-- ===== src/Client/Diagnostics.antt =====
-- crates/rdapify-client/src/lib.rs: what the client tells of its cache.
use rdapify.Base.{ℕ, Option, none, some}
use rdapify.Cache.Entries.{CacheStats, len, stats}
use rdapify.Client.{State, World}

unfoldable pub cache_size : World → State → ℕ
cache_size w s = elim s.cache [ none ↦ 0 | some c ↦ len w.keeps (w.instant s.fetch.trace) c ]

unfoldable pub cache_stats : State → Option CacheStats
cache_stats s = elim s.cache [ none ↦ none | some c ↦ some (stats c) ]

-- ===== src/Cache/Counters.antt =====
-- The counters of the cache.
use rdapify.Base.{ℕ, suc, ◌+◌, ◌^◌, ◌<◌, ◌≡◌, refl, Option, none, some, arith, if-both}
use rdapify.Base.Text.{Text}
use rdapify.Base.Text.Keyed.{get}
use rdapify.Cache.{
  Keeps, Entry, CacheValue, hit, negative, CacheStatus, fresh, stale, absent, miss, MemoryCache,
  is_fresh, is_in_stale_window, get_status, found, status_of, status_at,
}

-- The lookups that the counters have seen.
abbrev pub lookups : MemoryCache → ℕ
lookups c = c.hits + c.misses + c.stale_hits + c.negative_hits

-- The counter of a status.
abbrev pub counter : CacheStatus → MemoryCache → ℕ
counter (fresh value) c = c.hits
counter (stale value) c = c.stale_hits
counter absent c = c.negative_hits
counter miss c = c.misses

abbrev pub Counted : MemoryCache → CacheStatus × MemoryCache → Type 0
Counted c (status, c') =
    (counter status c' ≡ suc (counter status c))
    × (lookups c' ≡ suc (lookups c))
    × (c'.in_flight ≡ c.in_flight)

-- No counter is about to wrap.
abbrev pub HasRoom : MemoryCache → Type 0
HasRoom c =
    (c.hits + 1 < 2 ^ 64)
    × (c.misses + 1 < 2 ^ 64)
    × (c.stale_hits + 1 < 2 ^ 64)
    × (c.negative_hits + 1 < 2 ^ 64)

status_of-Counted :
    (now : ℕ) (key : Text) (entry : Entry) (v : CacheValue) (c : MemoryCache)
    → HasRoom c
    → Counted c (status_of now key entry v c)
unfolding status_of
status_of-Counted now key entry negative c (h, m, s, n) =
    if-both (Counted c) (is_fresh now entry) _ _ (λ _. (omega arith, omega arith, refl))
      (λ _. (omega arith, omega arith, refl))
status_of-Counted now key entry (hit value) c (h, m, s, n) =
    if-both (Counted c) (is_fresh now entry) _ _ (λ _. (omega arith, omega arith, refl))
      (λ _.
        if-both (Counted c) (is_in_stale_window now entry) _ _
          (λ _. (omega arith, omega arith, refl)) (λ _. (omega arith, omega arith, refl)))

status_at-Counted :
    (now : ℕ) (key : Text) (o : Option Entry) (c : MemoryCache)
    → HasRoom c
    → Counted c (status_at now key o c)
unfolding status_at
status_at-Counted now key none c (h, m, s, n) = (omega arith, omega arith, refl)
status_at-Counted now key (some entry) c room = status_of-Counted now key entry entry.value c room

-- Each lookup counts once, under the status that it answers, and touches no refresh in flight.
pub get_status-Counted :
    (keeps : Keeps) (now : ℕ) (key : Text) (c : MemoryCache)
    → HasRoom c
    → Counted c (get_status keeps now key c)
unfolding get_status
get_status-Counted keeps now key c room =
    status_at-Counted now key (found keeps now key (get key c.store)) c room

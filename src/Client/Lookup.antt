-- ===== src/Client/Lookup.antt =====
-- crates/rdapify-client/src/lib.rs: `fetch_with_cache` (cache, single flight, rate limit, fetch, cache)
-- and `background_refresh`.
pub mod Answers
pub mod Remembered
pub mod Keeps
pub mod Values
use rdapify.Base.{ℕ, Bool, true, false, Option, none, some, List, [], ◌∷◌, ◌==◌, if◌then◌else◌}
use rdapify.Base.Text.{Text, text}
use rdapify.Base.Result.{Result, ok, err}
use rdapify.Types.Error.{RdapError, invalid_input, invalid_url, http_status, rate_limited}
use rdapify.Security.Url.{Url}
use rdapify.Core.Validation.{Value}
use rdapify.Core.Fetcher.Call as Call
use rdapify.Core.Fetcher.Attempt as Attempt
use rdapify.Cache.{
  MemoryCache, CacheStatus, fresh, stale, absent, miss, get_status, set_with_ttl, set_negative,
  try_acquire_refresh, release, seconds,
}
use rdapify.Client.{QueryKind, kind_ttl, Parts, Refresh, State, World}

-- `CachePolicy::DEFAULT_NEGATIVE_TTL`.
abbrev pub default_negative_ttl : ℕ
default_negative_ttl = seconds 600

-- A value, and whether it comes from the cache.
abbrev pub Found : Type 0
Found = Result RdapError (Value × Bool)

abbrev pub status_404 : Text → RdapError
status_404 url = http_status 404 url

host_of : Text → Option Url → Result RdapError Text
host_of url none = err (invalid_url url)
host_of url (some parsed) = elim parsed.host_str [ some host ↦ ok host | none ↦ err invalid_input ]

-- What the cache keeps of an answer.
unfoldable pub populate : ℕ → Text → QueryKind → Result RdapError Value → MemoryCache → MemoryCache
populate now key kind (ok value) c = set_with_ttl now key value (kind_ttl kind) c
populate now key kind (err (http_status status url)) c =
    if status == 404 then set_negative now key default_negative_ttl c else c
populate now key kind (err _) c = c

-- In the background, only a value is kept.
unfoldable pub populate_value :
    ℕ → Text → QueryKind → Result RdapError Value → MemoryCache → MemoryCache
populate_value now key kind (ok value) c = set_with_ttl now key value (kind_ttl kind) c
populate_value now key kind (err _) c = c

abbrev pub in_cache : (MemoryCache → MemoryCache) → State → State
in_cache f s = record s { cache = elim s.cache [ some c ↦ some (f c) | none ↦ none ] }

-- `Ok((fetch_result?, false))`.
abbrev pub fresh_from : Result RdapError Value → Found
fresh_from (ok value) = ok (value, false)
fresh_from (err e) = err e

-- `drop(leader_guard)`.
unfoldable pub drop_guard : Text → Bool → State → State
drop_guard key true s = in_cache (release key) s
drop_guard key false s = s

module _ (w : World) (p : Parts) where
  unfoldable pub extract_host : Text → Result RdapError Text
  unfolding host_of
  extract_host url = host_of url (w.fetch.net.parse url)

  asked : Text → Option ℕ → Result RdapError (Unit {0})
  asked host none = ok tt
  asked host (some wait) = err (rate_limited host wait)

  limited : Result RdapError Text → State → Result RdapError (Unit {0})
  unfolding asked
  limited (err e) s = err e
  limited (ok host) s = asked host (w.acquire s.fetch.trace host)

  unfoldable pub rate_limit : Text → State → Result RdapError (Unit {0})
  unfolding limited
  rate_limit url s = if p.rate_limiter then limited (extract_host url) s else ok tt

  -- The fetch, and what follows it up to the guard.
  unfoldable pub live : Text → Text → QueryKind → Bool → State → Found × State
  live key url kind guard s =
      let (r, f) = Call.fetch w.fetch p.fetcher url s.fetch in
      let kept = in_cache (populate (w.instant f.trace) key kind r) (record s { fetch = f }) in
      (fresh_from r, drop_guard key guard kept)

  admitted : Text → Text → QueryKind → Bool → Result RdapError (Unit {0}) → State → Found × State
  admitted key url kind guard (err e) s = (err e, drop_guard key guard s)
  admitted key url kind guard (ok _) s = live key url kind guard s

  -- Rate limit and fetch; the guard is dropped on every way out.
  unfoldable pub as_leader : Text → Text → QueryKind → Bool → State → Found × State
  unfolding admitted
  as_leader key url kind guard s = admitted key url kind guard (rate_limit url s) s

  -- After the wait for a leader.
  woken : Text → Text → QueryKind → CacheStatus × MemoryCache → State → Found × State
  woken key url kind (fresh value, c) s = (ok (value, true), record s { cache = some c })
  woken key url kind (stale value, c) s = (ok (value, true), record s { cache = some c })
  woken key url kind (absent, c) s = (err (status_404 url), record s { cache = some c })
  woken key url kind (miss, c) s =
      let (guard, c') = try_acquire_refresh (w.in_flight_len s.fetch.trace) key c in
      as_leader key url kind guard (record s { cache = some c' })

  unfoldable pub as_follower : Text → Text → QueryKind → MemoryCache → State → Found × State
  unfolding woken
  as_follower key url kind c s =
      let c' = w.await_refresh s.fetch.trace key c in
      woken key url kind (get_status w.keeps (w.instant s.fetch.trace) key c') s

  claimed : Text → Text → QueryKind → Bool × MemoryCache → State → Found × State
  claimed key url kind (true, c) s = as_leader key url kind true (record s { cache = some c })
  claimed key url kind (false, c) s = as_follower key url kind c s

  -- A stale answer spawns a refresh if it gets the guard.
  spawn : Text → Text → QueryKind → Bool × MemoryCache → State → State
  spawn key url kind (true, c) s = record s {
    cache = some c;
    spawned = record { key = key; url = url; kind = kind } ∷ s.spawned;
  }
  spawn key url kind (false, c) s = record s { cache = some c }

  unfoldable pub by_status :
      Text → Text → QueryKind → CacheStatus × MemoryCache → State → Found × State
  unfolding spawn claimed
  by_status key url kind (fresh value, c) s = (ok (value, true), record s { cache = some c })
  by_status key url kind (stale value, c) s = (
    ok (value, true),
    spawn key url kind (try_acquire_refresh (w.in_flight_len s.fetch.trace) key c) s,
  )
  by_status key url kind (absent, c) s = (err (status_404 url), record s { cache = some c })
  by_status key url kind (miss, c) s =
      claimed key url kind (try_acquire_refresh (w.in_flight_len s.fetch.trace) key c) s

  with_cache : Text → Text → QueryKind → Option MemoryCache → State → Found × State
  with_cache key url kind none s = as_leader key url kind false s
  with_cache key url kind (some c) s =
      by_status key url kind (get_status w.keeps (w.instant s.fetch.trace) key c) s

  unfoldable pub fetch_with_cache : Text → Text → QueryKind → State → Found × State
  unfolding with_cache
  fetch_with_cache key url kind s = with_cache key url kind s.cache s

  -- Whether the limiter lets a refresh through; a URL without a host is not held up.
  refresh_allowed : Text → State → Bool
  refresh_allowed url s =
      if p.rate_limiter
      then elim (extract_host url) [
        | err e ↦ true
        | ok host ↦ elim (w.acquire s.fetch.trace host) [ none ↦ true | some wait ↦ false ]
      ]
      else true

  unfoldable pub background_refresh : Text → Text → QueryKind → State → State
  unfolding refresh_allowed
  background_refresh key url kind s =
      let (r, f) = Call.fetch w.fetch p.fetcher url s.fetch in
      let done =
        in_cache (populate_value (w.instant f.trace) key kind r) (record s { fetch = f }) in
      if refresh_allowed url s then done else s

  -- The spawned task: the refresh, then `drop(guard)`.
  unfoldable pub run_refresh : Refresh → State → State
  run_refresh task s = drop_guard task.key true (background_refresh task.key task.url task.kind s)

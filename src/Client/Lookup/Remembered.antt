-- ===== src/Client/Lookup/Remembered.antt =====
-- crates/rdapify-client/src/lib.rs: what a fetch leaves in the cache for later calls.
use rdapify.Base.{ℕ, ◌-◌, ◌≤◌, ◌≡◌, refl, sym, subst, ◌∙◌, Bool, true, false, Option, some, arith}
use rdapify.Base.Text.{Text, text_eq_refl}
use rdapify.Base.Result.{Result, ok, err}
use rdapify.Types.Error.{RdapError, http_status}
use rdapify.Core.Validation.{Value}
use rdapify.Cache.{MemoryCache, CacheStatus, fresh, stale, absent, miss, get_status, release}
use rdapify.Cache.Freshness.{
  get_status-set_with_ttl, get_status-release, get_status_absent, made, made_negative,
}
use rdapify.Client.{QueryKind, kind_ttl, Parts, State, World}
use rdapify.Client.Lookup.{
  Found, fetch_with_cache, with_cache, by_status, live, drop_guard, populate, status_404,
  default_negative_ttl,
}
use rdapify.Client.Lookup.Answers.{the_fetch}
use rdapify.Client.Lookup.Keeps.{with_store}

module _ (w : World) (p : Parts) where
  -- The cache after `live`, from a cache.
  abbrev after_drop : Text → Bool → MemoryCache → MemoryCache
  after_drop key true c = release key c
  after_drop key false c = c

  live-cache :
      (key url : Text) (kind : QueryKind) (guard : Bool) (c : MemoryCache) (s : State)
      → (live w p key url kind guard (with_store c s)).1.cache
        ≡ some (
            after_drop key guard (
              populate
                (w.instant (the_fetch w p url s).1.trace)
                key
                kind
                (the_fetch w p url s).0
                c))
  unfolding live drop_guard
  live-cache key url kind true c s = refl
  live-cache key url kind false c s = refl

  after_drop_status :
      (key : Text) (guard : Bool) (later : ℕ) (c : MemoryCache)
      → (get_status w.keeps later key (after_drop key guard c)).0
        ≡ (get_status w.keeps later key c).0
  after_drop_status key true later c = get_status-release w.keeps later key key c
  after_drop_status key false later c = refl

  -- A call that sends nothing and answers so.
  abbrev AtOnce : State → Found → Found × State → Type 0
  AtOnce t answer (r, t') = (r ≡ answer) × (t'.fetch ≡ t.fetch)

  by_status-AtOnce :
      (key url : Text) (kind : QueryKind) (value : Value) (o : CacheStatus × MemoryCache)
      (t : State)
      → o.0 ≡ fresh value
      → AtOnce t (ok (value, true)) (by_status w p key url kind o t)
  unfolding by_status
  by_status-AtOnce key url kind value (fresh v, c) t e = (ground arith, refl)
  by_status-AtOnce key url kind value (stale v, c) t e = absurd (ground arith)
  by_status-AtOnce key url kind value (absent, c) t e = absurd (ground arith)
  by_status-AtOnce key url kind value (miss, c) t e = absurd (ground arith)

  absent-AtOnce :
      (key url : Text) (kind : QueryKind) (o : CacheStatus × MemoryCache) (t : State)
      → o.0 ≡ absent
      → AtOnce t (err (status_404 url)) (by_status w p key url kind o t)
  unfolding by_status
  absent-AtOnce key url kind (fresh v, c) t e = absurd (ground arith)
  absent-AtOnce key url kind (stale v, c) t e = absurd (ground arith)
  absent-AtOnce key url kind (absent, c) t e = (refl, refl)
  absent-AtOnce key url kind (miss, c) t e = absurd (ground arith)

  -- Where the two states meet in the cache.
  from_cache :
      (key url : Text) (kind : QueryKind) (answer : Found) (c : MemoryCache) (t : State)
      → t.cache ≡ some c
      → AtOnce t answer
          (by_status w p key url kind (get_status w.keeps (w.instant t.fetch.trace) key c) t)
      → AtOnce t answer (fetch_with_cache w p key url kind t)
  unfolding fetch_with_cache with_cache
  from_cache key url kind answer c t there h =
      subst (λ (o : Option MemoryCache). AtOnce t answer (with_cache w p key url kind o t))
        (sym there) h

  module _ (now later : ℕ) (key : Text) (kind : QueryKind) (c : MemoryCache) where
    populate-fresh :
        (r : Result RdapError Value) (value : Value)
        → r ≡ ok value
        → later - now ≤ kind_ttl kind
        → w.keeps later key (made now value (kind_ttl kind)) ≡ true
        → (get_status w.keeps later key (populate now key kind r c)).0 ≡ fresh value
    unfolding populate
    populate-fresh r value e young kept = rw e (
        get_status-set_with_ttl w.keeps now later key key value (kind_ttl kind) c
        ∙ rw (text_eq_refl key) (rw kept (ground arith)))

    populate-absent :
        (r : Result RdapError Value) (url : Text)
        → r ≡ err (http_status 404 url)
        → later - now ≤ default_negative_ttl
        → w.keeps later key (made_negative now default_negative_ttl) ≡ true
        → (get_status w.keeps later key (populate now key kind r c)).0 ≡ absent
    unfolding populate
    populate-absent r url e young kept =
        rw e (get_status_absent w.keeps now later key default_negative_ttl c kept young)

  -- After a fetch that gave a value, with the cache on, a later call for the same key, with the same
  -- cache and within the time to live of the kind, answers with that value, marked as cached, and sends
  -- nothing, as long as the store has not dropped the entry.
  pub live_is_remembered :
      (key url url' : Text) (kind kind' : QueryKind) (guard : Bool) (c : MemoryCache) (s t : State)
      (value : Value)
      → (the_fetch w p url s).0 ≡ ok value
      → t.cache ≡ (live w p key url kind guard (with_store c s)).1.cache
      → w.instant t.fetch.trace - w.instant (the_fetch w p url s).1.trace ≤ kind_ttl kind
      → w.keeps
          (w.instant t.fetch.trace)
          key
          (made (w.instant (the_fetch w p url s).1.trace) value (kind_ttl kind))
        ≡ true
      → ((fetch_with_cache w p key url' kind' t).0 ≡ ok (value, true))
        × ((fetch_with_cache w p key url' kind' t).1.fetch ≡ t.fetch)
  live_is_remembered key url url' kind kind' guard c s t value e same young kept =
      let now = w.instant (the_fetch w p url s).1.trace in
      let later = w.instant t.fetch.trace in
      let stored = populate now key kind (the_fetch w p url s).0 c in
      from_cache key url' kind' (ok (value, true)) (after_drop key guard stored) t
        (same ∙ live-cache key url kind guard c s)
        (by_status-AtOnce key url' kind' value
          (get_status w.keeps later key (after_drop key guard stored)) t
          (after_drop_status key guard later stored
            ∙ populate-fresh now later key kind c (the_fetch w p url s).0 value e young kept))

  -- After a fetch that ended in a 404, with the cache on, a later call for the same key, with the same
  -- cache and within ten minutes, answers with a 404 for its own URL and sends nothing, as long as the
  -- store has not dropped the entry.
  pub live_404_is_remembered :
      (key url url' missing : Text) (kind kind' : QueryKind) (guard : Bool) (c : MemoryCache)
      (s t : State)
      → (the_fetch w p url s).0 ≡ err (http_status 404 missing)
      → t.cache ≡ (live w p key url kind guard (with_store c s)).1.cache
      → w.instant t.fetch.trace - w.instant (the_fetch w p url s).1.trace ≤ default_negative_ttl
      → w.keeps
          (w.instant t.fetch.trace)
          key
          (made_negative (w.instant (the_fetch w p url s).1.trace) default_negative_ttl)
        ≡ true
      → ((fetch_with_cache w p key url' kind' t).0 ≡ err (http_status 404 url'))
        × ((fetch_with_cache w p key url' kind' t).1.fetch ≡ t.fetch)
  live_404_is_remembered key url url' missing kind kind' guard c s t e same young kept =
      let now = w.instant (the_fetch w p url s).1.trace in
      let later = w.instant t.fetch.trace in
      let stored = populate now key kind (the_fetch w p url s).0 c in
      from_cache key url' kind' (err (status_404 url')) (after_drop key guard stored) t
        (same ∙ live-cache key url kind guard c s)
        (absent-AtOnce key url' kind' (get_status w.keeps later key (after_drop key guard stored)) t
          (after_drop_status key guard later stored
            ∙ populate-absent now later key kind c (the_fetch w p url s).0 missing e young kept))

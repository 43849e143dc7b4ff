-- ===== src/Bootstrap/Resolver/Kept.antt =====
-- How long a downloaded file is used.
use rdapify.Base.{ℕ, ◌-◌, ◌≤◌, ◌≡◌, ap, some, arith}
use rdapify.Base.Text.Keyed.{put, get-put_same}
use rdapify.Base.Result.{Result, ok, err}
use rdapify.Types.Error.{RdapError}
use rdapify.Security.Http.{Trace}
use rdapify.Bootstrap.Data.{ResourceData, Resource, resource_name}
use rdapify.Bootstrap.Resolver.{
  Outside, Bootstrap, CacheEntry, is_expired, fresh_in, stored, fetch_resource, fetch_and_cache,
  read_cache_if_fresh, get_resource,
}

module _ (w : Outside) where
  fresh_in_young :
      (now ttl : ℕ) (entry : CacheEntry)
      → now - entry.fetched_at ≤ ttl
      → fresh_in w now ttl (some entry) ≡ some entry.contents
  unfolding fresh_in is_expired
  fresh_in_young now ttl entry young = ground arith

  put_fresh :
      (b : Bootstrap) (resource : Resource) (entry : CacheEntry) (now : ℕ)
      → now - entry.fetched_at ≤ b.ttl
      → read_cache_if_fresh w
          (record b { cache = put (resource_name resource) entry b.cache })
          resource
          now
        ≡ some entry.contents
  unfolding read_cache_if_fresh
  put_fresh b resource entry now young =
      rw (get-put_same (resource_name resource) entry b.cache)
        (fresh_in_young now b.ttl entry young)

  -- After a download, at a time within the time to live.
  stored_reused :
      (b : Bootstrap) (resource : Resource) (r : Result RdapError ResourceData) (done later : Trace)
      (contents : ResourceData)
      → (stored w b resource (r, done)).0 ≡ ok contents
      → w.clock later - w.clock (stored w b resource (r, done)).1.1 ≤ b.ttl
      → get_resource w (stored w b resource (r, done)).1.0 resource later
        ≡ (ok contents, ((stored w b resource (r, done)).1.0, later))
  unfolding get_resource
  stored_reused b resource (err e) done later contents h young = absurd (cc h)
  stored_reused b resource (ok kept) done later contents h young =
      let entry : CacheEntry = record { contents = kept; fetched_at = w.clock done } in
      let kept_in = record b { cache = put (resource_name resource) entry b.cache } in
      rw (put_fresh b resource entry (w.clock later) young, get_resource)
        (ap (λ (r : Result RdapError ResourceData). (r, (kept_in, later))) h)

  -- A file that was downloaded is used again until its time to live is over: the next query that needs
  -- it sends nothing and leaves the cache as it is.
  pub get_resource_reuses :
      (b : Bootstrap) (resource : Resource) (trace later : Trace) (contents : ResourceData)
      → (fetch_and_cache w b resource trace).0 ≡ ok contents
      → w.clock later - w.clock (fetch_and_cache w b resource trace).1.1 ≤ b.ttl
      → get_resource w (fetch_and_cache w b resource trace).1.0 resource later
        ≡ (ok contents, ((fetch_and_cache w b resource trace).1.0, later))
  unfolding fetch_and_cache
  get_resource_reuses b resource trace later contents h young =
      let (r, done) = fetch_resource w b resource trace in
      stored_reused b resource r done later contents h young

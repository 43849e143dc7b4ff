-- ===== src/Bootstrap/Resolver/Gone.antt =====
-- crates/rdap-bootstrap/src/lib.rs: what `for_domain` makes of a file that is not there.
use rdapify.Base.{◌≡◌, refl, false, none, ◌++◌}
use rdapify.Base.Text.{Text, text}
use rdapify.Base.Result.{ok, err}
use rdapify.Types.Error.{http_status}
use rdapify.Security.Http.{Response, Trace}
use rdapify.Bootstrap.Data.{dns_file, longest_suffix, normalize_domain_input}
use rdapify.Bootstrap.Resolver.{
  Outside, Bootstrap, send, on_response, fetch_resource, fetch_and_cache, get_resource,
  read_cache_if_fresh, in_index, named, for_domain,
}

-- The file for domains.
abbrev pub dns_url : Bootstrap → Text
dns_url b = b.base_url ++ text "/dns.json"

module _ (w : Outside) where
  -- The name needs the file, which is not in the cache: no server of the caller's own serves it.
  pub record NeedsFile (b : Bootstrap) (domain : Text) (trace : Trace) : Type 0 where
    pub normalized : Text
    pub reads : normalize_domain_input domain ≡ ok normalized
    pub unserved : longest_suffix b.custom_servers normalized ≡ none
    pub uncached : read_cache_if_fresh w b dns_file (w.clock trace) ≡ none

  -- The download of the file is answered, by a 404.
  pub record IsGone (b : Bootstrap) (trace : Trace) : Type 0 where
    pub response : Response
    pub answer : (send w b (dns_url b) trace).0 ≡ ok response
    pub missing : response.status ≡ 404
    pub unsuccessful : w.net.is_success 404 ≡ false

  fetch_resource_gone :
      (b : Bootstrap) (trace : Trace)
      → IsGone b trace
      → fetch_resource w b dns_file trace
        ≡ (err (http_status 404 (dns_url b)), (send w b (dns_url b) trace).1)
  unfolding fetch_resource on_response
  fetch_resource_gone b trace gone = rw gone.answer (rw gone.missing (rw gone.unsuccessful refl))

  get_resource_gone :
      (b : Bootstrap) (trace : Trace)
      → read_cache_if_fresh w b dns_file (w.clock trace) ≡ none
      → IsGone b trace
      → get_resource w b dns_file trace
        ≡ (err (http_status 404 (dns_url b)), (b, (send w b (dns_url b) trace).1))
  unfolding get_resource fetch_and_cache
  get_resource_gone b trace uncached gone =
      rw (uncached, get_resource) (rw (fetch_resource_gone b trace gone) refl)

  pub for_domain_gone :
      (b : Bootstrap) (domain : Text) (trace : Trace)
      → NeedsFile b domain trace
      → IsGone b trace
      → for_domain w b domain trace
        ≡ (err (http_status 404 (dns_url b)), (b, (send w b (dns_url b) trace).1))
  unfolding for_domain named in_index
  for_domain_gone b domain trace need gone =
      rw need.reads
        (rw (need.unserved, in_index) (rw (get_resource_gone b trace need.uncached gone) refl))

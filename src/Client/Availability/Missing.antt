-- ===== src/Client/Availability/Missing.antt =====
-- crates/rdapify-client/src/lib.rs: what `domain_available` makes of a 404 of the bootstrap.
use rdapify.Base.{◌≡◌, refl, true, none}
use rdapify.Base.Text.{Text}
use rdapify.Base.Result.{ok, err}
use rdapify.Types.Error.{http_status}
use rdapify.Bootstrap.Resolver.{send}
use rdapify.Bootstrap.Resolver.Gone.{NeedsFile, IsGone, dns_url, for_domain_gone}
use rdapify.Client.{Parts, State, World, normalise_domain, outside}
use rdapify.Client.Queries.{domain, named, at_server}
use rdapify.Client.Availability.{domain_available, judged, judge}

module _ (w : World) (p : Parts) where
  -- The state once the download of the file for domains is over.
  abbrev pub downloaded : State → State
  downloaded s = record s {
    fetch = record s.fetch {
      trace = (send (outside w) s.bootstrap (dns_url s.bootstrap) s.fetch.trace).1;
    };
  }

  domain_gone :
      (typed name : Text) (s : State)
      → normalise_domain w.domain_to_ascii typed ≡ ok name
      → NeedsFile (outside w) s.bootstrap name s.fetch.trace
      → IsGone (outside w) s.bootstrap s.fetch.trace
      → domain w p typed s ≡ (err (http_status 404 (dns_url s.bootstrap)), downloaded s)
  unfolding domain named at_server
  domain_gone typed name s normal need gone =
      rw (normal, named)
        (rw (for_domain_gone (outside w) s.bootstrap name s.fetch.trace need gone) refl)

  -- Where the download of the bootstrap file for domains is answered by a 404, each name that the client
  -- accepts and that needs the file (no server of the caller's own serves it, and no fresh copy of the file
  -- is in the cache) is reported as available, though no registry was asked: the download is all that was
  -- sent, the breakers, the permits and the cache of responses are as they were.
  pub bootstrap_404_is_available :
      (typed name : Text) (s : State)
      → normalise_domain w.domain_to_ascii typed ≡ ok name
      → NeedsFile (outside w) s.bootstrap name s.fetch.trace
      → IsGone (outside w) s.bootstrap s.fetch.trace
      → domain_available w p typed s
        ≡ (ok (record { domain = name; available = true; expires_at = none }), downloaded s)
  unfolding domain_available judged judge
  bootstrap_404_is_available typed name s normal need gone =
      rw (normal, judged) (rw (domain_gone typed name s normal need gone) refl)

-- ===== src/Client/Availability.antt =====
-- crates/rdapify-client/src/lib.rs: `domain_available`.
mod Tests
pub mod Missing
pub mod Many
use rdapify.Base.{ℕ, Bool, true, false, Option, none, some, ◌==◌, if◌then◌else◌}
use rdapify.Base.Text.{Text}
use rdapify.Base.Result.{Result, ok, err}
use rdapify.Types.Error.{RdapError, http_status}
use rdapify.Types.Response.{DomainResponse, AvailabilityResult, expiration_date}
use rdapify.Client.{Parts, State, World, normalise_domain}
use rdapify.Client.Queries.{domain}

-- What the answer for the domain says.
unfoldable pub judge : Text → Result RdapError DomainResponse → Result RdapError AvailabilityResult
judge name (ok response) =
    ok (record { domain = name; available = false; expires_at = expiration_date response })
judge name (err (http_status status url)) =
    if status == 404
    then ok (record { domain = name; available = true; expires_at = none })
    else err (http_status status url)
judge name (err e) = err e

module _ (w : World) (p : Parts) where
  judged : Text → Result RdapError Text → State → Result RdapError AvailabilityResult × State
  judged typed (err e) s = (err e, s)
  judged typed (ok name) s = let (r, s') = domain w p typed s in (judge name r, s')

  unfoldable pub domain_available : Text → State → Result RdapError AvailabilityResult × State
  unfolding judged
  domain_available typed s = judged typed (normalise_domain w.domain_to_ascii typed) s

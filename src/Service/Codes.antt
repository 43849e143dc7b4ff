-- ===== src/Service/Codes.antt =====
-- crates/rdap-service/src/error.rs: the code in the body, next to the status.
use rdapify.Base.{
  Bool-cases, inl, inr, ℕ, ◌≡◌, ◌↔◌, refl, ◌&&◌, arith, leb, ltb, ◌==◌, if◌then◌else◌,
}
use rdapify.Base.Text.{text, text_eq, text_neq}
use rdapify.Types.Error as Error
use rdapify.Types.Error.{RdapError, status_code}
use rdapify.Service.{response_status, error_code}

clamped_404 :
    (status : ℕ)
    → ((if leb 100 status && ltb status 1000 then status else 500) ≡ 404) ↔ (status ≡ 404)
clamped_404 status = (λ h. ground arith, λ h. ground arith)

-- The body says that nothing was found exactly when the status is 404.
pub error_code-not_found_iff :
    (e : RdapError) → (error_code e ≡ text "not_found") ↔ (response_status e ≡ 404)
unfolding error_code response_status status_code text_eq
error_code-not_found_iff (Error.no_server_found query) = (λ h. refl, λ h. refl)
error_code-not_found_iff (Error.http_status status url) = elim (Bool-cases (status == 404)) [
  | inl e ↦ rw e (λ h. (clamped_404 status).1 (ground arith), λ h. refl)
  | inr e ↦ rw e (
    λ h. absurd (text_neq (text "upstream_error") (text "not_found") refl h),
    λ h. absurd (let same = (clamped_404 status).0 h in ground arith),
  )
]
error_code-not_found_iff _ =
    (λ h. absurd (text_neq _ (text "not_found") refl h), λ h. absurd (ground arith))

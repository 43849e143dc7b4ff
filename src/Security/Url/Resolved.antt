-- ===== src/Security/Url/Resolved.antt =====
-- The resolved addresses that `validate_resolved_ips` lets through.
use rdapify.Base.{
  ◌≡◌, ◌↔◌, refl, true, false, ◌||◌, List, [], ◌∷◌, arith, All, Option-cases, inl, inr,
}
use rdapify.Base.Result.{ok}
use rdapify.Net.{IpAddr, v4, v6, to_ipv4_mapped}
use rdapify.Security.Ip.{canonicalize, is_blocked_ip, is_loopback, is_link_local, is_private_ip}
use rdapify.Security.Url.{validate_resolved_ips}

canonicalize_idem : (ip : IpAddr) → canonicalize (canonicalize ip) ≡ canonicalize ip
unfolding canonicalize
canonicalize_idem (v4 a) = refl
canonicalize_idem (v6 a) = elim (Option-cases (to_ipv4_mapped a)) [
  | inl e ↦ rw (e, canonicalize) (rw (e, canonicalize))
  | inr (b, e) ↦ rw (e, canonicalize)
]

-- The three named classes are part of the blocked one.
blocked_of_named :
    (ip : IpAddr)
    → (is_loopback ip || is_link_local ip || is_private_ip ip) ≡ true
    → is_blocked_ip ip ≡ true
unfolding is_blocked_ip
blocked_of_named ip h = rw canonicalize_idem (ground arith)

abbrev pub IsAllowed : IpAddr → Type 0
IsAllowed ip = is_blocked_ip ip ≡ false

-- The check passes exactly when no resolved address is blocked.
pub validate_resolved_ips_iff :
    (ips : List IpAddr) → (validate_resolved_ips ips ≡ ok tt) ↔ All IsAllowed ips
unfolding validate_resolved_ips
validate_resolved_ips_iff [] = (λ h. tt, λ h. refl)
validate_resolved_ips_iff (ip ∷ ips) =
    let (sound, complete) = validate_resolved_ips_iff ips in
    (
      λ h. (ground arith, sound (ground arith)),
      λ h. ground (arith, blocked_of_named ip, complete h.1, h.0),
    )

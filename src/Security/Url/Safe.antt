-- ===== src/Security/Url/Safe.antt =====
-- What a URL that `validate_url` accepts is like.
use rdapify.Base.{◌≡◌, ◌≢◌, ◌↔◌, refl, true, false, Option, none, some, [], ◌∷◌, arith}
use rdapify.Base.Text.{Text, text, text_eq_iff, is_empty, to_lowercase, eq_ignore_ascii_case}
use rdapify.Base.Result.{ok}
use rdapify.Net.{v4, v6}
use rdapify.Security.Ip.{is_blocked_ip}
use rdapify.Security.Url.{Url, Host, domain, ipv4, ipv6, check_host, validate_url}

abbrev pub HostIsSafe : Option Host → Type 0
HostIsSafe none = ⊥
HostIsSafe (some (domain d)) = (d ≢ []) × (to_lowercase d ≢ text "localhost")
HostIsSafe (some (ipv4 a)) = is_blocked_ip (v4 a) ≡ false
HostIsSafe (some (ipv6 a)) = is_blocked_ip (v6 a) ≡ false

pub record IsSafeUrl (url : Url) : Type 0 where
  pub https : url.scheme ≡ text "https"
  pub no_user : url.username ≡ []
  pub no_password : url.password ≡ none
  pub safe_host : HostIsSafe url.host

is_empty_iff : (s : Text) → (is_empty s ≡ true) ↔ (s ≡ [])
unfolding is_empty
is_empty_iff [] = (λ h. refl, λ h. refl)
is_empty_iff (c ∷ s) = (λ h. cc, λ h. cc)

lowercase_localhost : to_lowercase (text "localhost") ≡ text "localhost"
unfolding to_lowercase
lowercase_localhost = refl

check_host-HostIsSafe : (h : Option Host) → check_host h ≡ ok tt → HostIsSafe h
unfolding check_host eq_ignore_ascii_case
check_host-HostIsSafe none h = cc
check_host-HostIsSafe (some (domain d)) h = (
  λ e. ground (arith, (is_empty_iff d).1 e),
  λ e. ground (
    arith,
    lowercase_localhost,
    (text_eq_iff (to_lowercase d) (to_lowercase (text "localhost"))).1
        (ground (arith, lowercase_localhost)),
  ),
)
check_host-HostIsSafe (some (ipv4 a)) h = ground arith
check_host-HostIsSafe (some (ipv6 a)) h = ground arith

HostIsSafe-check_host : (h : Option Host) → HostIsSafe h → check_host h ≡ ok tt
unfolding check_host eq_ignore_ascii_case
HostIsSafe-check_host none h = absurd h
HostIsSafe-check_host (some (domain d)) h = ground (
  arith,
  (is_empty_iff d).0,
  lowercase_localhost,
  h.0,
  h.1,
  (text_eq_iff (to_lowercase d) (to_lowercase (text "localhost"))).0,
)
HostIsSafe-check_host (some (ipv4 a)) h = ground arith
HostIsSafe-check_host (some (ipv6 a)) h = ground arith

-- A URL is accepted exactly when it is https, carries no credentials, and names a host that is not
-- empty, not localhost in any case, and no blocked address literal.
pub validate_url_iff : (url : Url) → (validate_url url ≡ ok tt) ↔ IsSafeUrl url
unfolding validate_url
validate_url_iff url = (
  λ h. record {
    https = ground (arith, text_eq_iff url.scheme (text "https"));
    no_user = ground (arith, is_empty_iff url.username);
    no_password = ground arith;
    safe_host = check_host-HostIsSafe url.host (ground arith);
  },
  λ s. ground (
    arith,
    (text_eq_iff url.scheme (text "https")).1,
    (is_empty_iff url.username).1,
    HostIsSafe-check_host url.host s.safe_host,
  ),
)

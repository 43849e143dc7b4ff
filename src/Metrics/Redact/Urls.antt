-- ===== src/Metrics/Redact/Urls.antt =====
-- crates/rdap-metrics/src/redact.rs: what a redacted URL depends on.
use rdapify.Base.{
  ℕ, ◌≡◌, refl, sym, ap, subst, Bool, true, false, Option, none, some, [], ◌∷◌, ◌++◌, ◌==◌, All,
  All-append, arith,
}
use rdapify.Base.Optional.{unwrap_or}
use rdapify.Base.Text.{Text, text, is_empty}
use rdapify.Base.Text.Parts.{split_once, strip_prefix}
use rdapify.Metrics.Redact.{
  redact_url, redact_domain, split_once_text, ends_authority, before_first, after_last, first_or,
  host_in,
}

-- Whether a text has none of the bytes of a test.
abbrev pub Free : (ℕ → Bool) → Text → Type 0
Free p s = All (λ (c : ℕ). p c ≡ false) s

-- What may follow the authority.
abbrev pub IsTail : Text → Type 0
IsTail [] = Unit
IsTail (c ∷ s) = ends_authority c ≡ true

split_once_text-append :
    (scheme rest : Text)
    → Free (λ c. c == 58) scheme
    → split_once_text (text "://") (scheme ++ (text "://" ++ rest)) ≡ some (scheme, rest)
unfolding split_once_text strip_prefix
split_once_text-append [] rest h = refl
split_once_text-append (c ∷ s) rest (h, hs) =
    let apart : (58 == c) ≡ false = ground arith in
    rw (apart, split_once_text, strip_prefix) (rw (split_once_text-append s rest hs) refl)

before_first-append :
    (p : ℕ → Bool) (a t : Text) → Free p a → before_first p t ≡ [] → before_first p (a ++ t) ≡ a
unfolding before_first
before_first-append p [] t h e = e
before_first-append p (c ∷ a) t (h, hs) e = rw (h, before_first-append p a t hs e) refl

before_first-IsTail : (t : Text) → IsTail t → before_first ends_authority t ≡ []
unfolding before_first
before_first-IsTail [] h = refl
before_first-IsTail (c ∷ t) h = rw h refl

after_last-none : (c : ℕ) (h : Text) → Free (λ d. d == c) h → after_last c h ≡ none
unfolding after_last
after_last-none c [] f = refl
after_last-none c (d ∷ h) (f, fs) = rw (after_last-none c h fs, f) refl

after_last-append :
    (c : ℕ) (v h : Text) → Free (λ d. d == c) h → after_last c (v ++ (c ∷ h)) ≡ some h
unfolding after_last
after_last-append c [] h f =
    let same : (c == c) ≡ true = ground arith in rw (after_last-none c h f, same) refl
after_last-append c (d ∷ v) h f = rw (after_last-append c v h f) refl

split_once-none : (c : ℕ) (h : Text) → Free (λ d. d == c) h → split_once c h ≡ none
unfolding split_once
split_once-none c [] f = refl
split_once-none c (d ∷ h) (f, fs) = rw (f, split_once-none c h fs) refl

split_once-append :
    (c : ℕ) (h p : Text) → Free (λ d. d == c) h → split_once c (h ++ (c ∷ p)) ≡ some (h, p)
unfolding split_once
split_once-append c [] p f = let same : (c == c) ≡ true = ground arith in rw same refl
split_once-append c (d ∷ h) p (f, fs) = rw (f, split_once-append c h p fs) refl

-- `user:password@`, if it is there.
abbrev pub userinfo : Option Text → Text → Text
userinfo none s = s
userinfo (some user) s = user ++ (64 ∷ s)

-- `:port`, if it is there.
abbrev pub port_part : Option Text → Text
port_part none = []
port_part (some port) = 58 ∷ port

abbrev pub FreeIfSome : (ℕ → Bool) → Option Text → Type 0
FreeIfSome p none = Unit
FreeIfSome p (some s) = Free p s

append_nil : (s : Text) → s ++ [] ≡ s
append_nil [] = refl
append_nil (c ∷ s) = ap (λ (t : Text). c ∷ t) (append_nil s)

before_port :
    (host : Text) (port : Option Text)
    → Free (λ c. c == 58) host
    → first_or (host ++ port_part port) (split_once 58 (host ++ port_part port)) ≡ host
before_port host none free =
    subst (λ (t : Text). first_or t (split_once 58 t) ≡ host) (sym (append_nil host))
      (rw (split_once-none 58 host free) refl)
before_port host (some port) free = rw (split_once-append 58 host port free) refl

after_user :
    (user : Option Text) (s : Text)
    → Free (λ c. c == 64) s
    → unwrap_or (after_last 64 (userinfo user s)) (userinfo user s) ≡ s
after_user none s free = rw (after_last-none 64 s free) refl
after_user (some user) s free = rw (after_last-append 64 user s free) refl

port_part-Free :
    (p : ℕ → Bool) (port : Option Text) → p 58 ≡ false → FreeIfSome p port → Free p (port_part port)
port_part-Free p none colon free = tt
port_part-Free p (some port) colon free = (colon, free)

userinfo-Free :
    (p : ℕ → Bool) (user : Option Text) (s : Text)
    → p 64 ≡ false
    → FreeIfSome p user
    → Free p s
    → Free p (userinfo user s)
userinfo-Free p none s at_sign free rest = rest
userinfo-Free p (some user) s at_sign free rest = All-append _ user (64 ∷ s) free (at_sign, rest)

host_in-authority :
    (user : Option Text) (host : Text) (port : Option Text)
    → Free (λ c. c == 64) host
    → Free (λ c. c == 58) host
    → FreeIfSome (λ c. c == 64) port
    → host_in (userinfo user (host ++ port_part port)) ≡ host
unfolding host_in
host_in-authority user host port at_free colon_free free =
    let whole =
      All-append (λ (c : ℕ). (c == 64) ≡ false) host (port_part port) at_free
        (port_part-Free (λ c. c == 64) port refl free) in
    subst (λ (t : Text). first_or t (split_once 58 t) ≡ host) (sym (after_user user _ whole))
      (before_port host port colon_free)

-- The parts of a URL: a scheme without a colon, a host that is there, and what may go with it.
pub record IsUrl (scheme : Text) (user : Option Text) (host : Text) (port : Option Text)
    (tail : Text) : Type 0 where
  pub of_scheme : Free (λ c. c == 58) scheme
  pub of_user : FreeIfSome ends_authority user
  pub of_host : Free ends_authority host × Free (λ c. c == 64) host × Free (λ c. c == 58) host
  pub host_there : is_empty host ≡ false
  pub of_port : FreeIfSome ends_authority port × FreeIfSome (λ c. c == 64) port
  pub of_tail : IsTail tail

-- The redaction of a URL is its scheme and the redaction of its host: user name, password, port, path,
-- query and fragment leave no trace. The scheme has no colon; the host is not empty, and has no colon, so it
-- is no literal IPv6 address, no `@`, and nothing that ends an authority (`/`, `?`, `#`); the user
-- information and the port have nothing that ends an authority either, nor the port an `@`; what follows
-- is empty or begins with what ends an authority.
pub redact_url_lem :
    (scheme : Text) (user : Option Text) (host : Text) (port : Option Text) (tail : Text)
    → IsUrl scheme user host port tail
    → redact_url (scheme ++ (text "://" ++ (userinfo user (host ++ port_part port) ++ tail)))
      ≡ scheme ++ (text "://" ++ redact_domain host)
unfolding redact_url
redact_url_lem scheme user host port tail u =
    let rest = userinfo user (host ++ port_part port) ++ tail in
    let authority = userinfo-Free ends_authority user (host ++ port_part port) refl u.of_user (
      All-append (λ (c : ℕ). ends_authority c ≡ false) host (port_part port) u.of_host.0
        (port_part-Free ends_authority port refl u.of_port.0)) in
    rw
      (
        split_once_text-append scheme rest u.of_scheme,
        before_first-append ends_authority (userinfo user (host ++ port_part port)) tail authority
            (before_first-IsTail tail u.of_tail),
        host_in-authority user host port u.of_host.1 u.of_host.2 u.of_port.1,
        u.host_there,
      )
      refl

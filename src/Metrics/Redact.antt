-- ===== src/Metrics/Redact.antt =====
-- crates/rdap-metrics/src/redact.rs.
mod Tests
pub mod Urls
use Prim.Native.Nat.{bit_xor}
use rdapify.Base.{
  ℕ, zero, suc, ◌+◌, ◌*◌, ◌/◌, ◌%◌, ◌^◌, Bool, true, false, ◌||◌, Option, none, some, List, [], ◌∷◌,
  ◌++◌, ltb, ◌==◌, if◌then◌else◌,
}
use rdapify.Base.Optional.{unwrap_or}
use rdapify.Base.Text.{Text, text, is_empty}
use rdapify.Base.Text.Parts.{trim_end_matches, split, split_once, strip_prefix}
use rdapify.Net.{IpAddr, octet}
use rdapify.Net.IpAddr.{v4, v6}
use rdapify.Base.Text.Number.{print_unsigned}

-- 32-bit FNV-1a.
unfoldable pub hash_from : ℕ → Text → ℕ
hash_from h [] = h
hash_from h (b ∷ bytes) = hash_from (bit_xor h b * 0x0100_0193 % 2 ^ 32) bytes

unfoldable pub hash32 : Text → ℕ
hash32 bytes = hash_from 0x811c_9dc5 bytes

abbrev hex_digit : ℕ → ℕ
hex_digit d = if ltb d 10 then 48 + d else 87 + d

-- So many hexadecimal digits: `{:08x}` for eight of a `u32`.
unfoldable pub hex_padded : ℕ → ℕ → Text
hex_padded zero n = []
hex_padded (suc digits) n = hex_padded digits (n / 16) ++ (hex_digit (n % 16) ∷ [])

-- `{:x}` of a `u16`.
unfoldable pub hex_u16 : ℕ → Text
hex_u16 n =
    if ltb n 0x10
    then hex_padded 1 n
    else if ltb n 0x100
    then hex_padded 2 n
    else if ltb n 0x1000
    then hex_padded 3 n
    else hex_padded 4 n

-- `rsplit(c).next()`.
abbrev last_of : Text → List Text → Text
last_of piece [] = piece
last_of piece (other ∷ pieces) = last_of other pieces

abbrev tld_of : Text → Text
tld_of name = let tld = last_of [] (split 46 name) in if is_empty tld then text "_" else tld

unfoldable pub redact_domain : Text → Text
redact_domain domain =
    let trimmed = trim_end_matches 46 domain in
    tld_of trimmed ++ (58 ∷ hex_padded 8 (hash32 trimmed))

unfoldable pub redact_ip : IpAddr → Text
redact_ip (v4 a) =
    print_unsigned (octet 24 a.bits) ++ (46 ∷ (print_unsigned (octet 16 a.bits) ++ text ".x.x"))
redact_ip (v6 a) =
    hex_u16 (a.bits / 2 ^ 112 % 2 ^ 16)
    ++ (58 ∷ (hex_u16 (a.bits / 2 ^ 96 % 2 ^ 16) ++ text "::/96"))

-- `str::split_once` at a text.
unfoldable pub split_once_text : Text → Text → Option (Text × Text)
split_once_text pat [] = none
split_once_text pat (c ∷ s) = elim (strip_prefix pat (c ∷ s)) [
  | some rest ↦ some ([], rest)
  | none ↦ elim (split_once_text pat s) [ none ↦ none | some (a, b) ↦ some (c ∷ a, b) ]
]

-- `/`, `?` and `#`.
abbrev pub ends_authority : ℕ → Bool
ends_authority c = c == 47 || c == 63 || c == 35

-- The text before the first byte that passes, all of it if none does.
unfoldable pub before_first : (ℕ → Bool) → Text → Text
before_first p [] = []
before_first p (c ∷ s) = if p c then [] else c ∷ before_first p s

-- The second part of `str::rsplit_once`.
unfoldable pub after_last : ℕ → Text → Option Text
after_last c [] = none
after_last c (d ∷ s) = elim (after_last c s) [
  | some rest ↦ some rest
  | none ↦ if d == c then some s else none
]

abbrev pub first_or : Text → Option (Text × Text) → Text
first_or s none = s
first_or s (some (a, b)) = a

-- The host of an authority.
unfoldable pub host_in : Text → Text
host_in authority =
    let host_with_port = unwrap_or (after_last 64 authority) authority in
    first_or host_with_port (split_once 58 host_with_port)

abbrev pub opaque_of : Text → Text
opaque_of url = text "opaque:" ++ hex_padded 8 (hash32 url)

abbrev by_host : Text → Text → Text → Text
by_host url scheme host =
    if is_empty host then opaque_of url else scheme ++ (text "://" ++ redact_domain host)

abbrev by_parts : Text → Option (Text × Text) → Text
by_parts url none = opaque_of url
by_parts url (some (scheme, rest)) = by_host url scheme (host_in (before_first ends_authority rest))

unfoldable pub redact_url : Text → Text
redact_url url = by_parts url (split_once_text (text "://") url)

-- ===== src/Client/Queries/Keys.antt =====
-- crates/rdapify-client/src/lib.rs: the keys under which answers are kept.
use mathlib.Core.Option.{some-injective}
use rdapify.Base.{◌≡◌, refl, ap, sym, ◌∙◌, Option, some, List, [], ◌∷◌}
use rdapify.Base.Text.{Text, text, text_eq}
use rdapify.Base.Text.Parts.{split_once}
use rdapify.Base.Text.Keyed.{get}
use rdapify.Client.{QueryKind, tag, cache_key}
use rdapify.Client.QueryKind.{domain, ip, asn, nameserver, entity}

-- The kind with a tag.
abbrev kinds : List (Text × QueryKind)
kinds =
    (text "domain", domain)
    ∷ (text "ip", ip)
    ∷ (text "asn", asn)
    ∷ (text "nameserver", nameserver)
    ∷ (text "entity", entity)
    ∷ []

kind_of : Text → Option QueryKind
kind_of t = get t kinds

kind_of-tag : (kind : QueryKind) → kind_of (tag kind) ≡ some kind
unfolding kind_of tag get text_eq
kind_of-tag domain = refl
kind_of-tag ip = refl
kind_of-tag asn = refl
kind_of-tag nameserver = refl
kind_of-tag entity = refl

split_once-cache_key :
    (kind : QueryKind) (a : Text) → split_once 58 (cache_key kind a) ≡ some (tag kind, a)
unfolding cache_key tag split_once
split_once-cache_key domain a = refl
split_once-cache_key ip a = refl
split_once-cache_key asn a = refl
split_once-cache_key nameserver a = refl
split_once-cache_key entity a = refl

-- Answers of different kinds, or for different normalized inputs, are kept under different keys.
pub cache_key-injective :
    (kind other : QueryKind) (a b : Text)
    → cache_key kind a ≡ cache_key other b
    → (kind ≡ other) × (a ≡ b)
cache_key-injective kind other a b h =
    let parts : (tag kind, a) ≡ (tag other, b) =
      cc (ap (split_once 58) h, split_once-cache_key kind a, split_once-cache_key other b) in
    let same : some kind ≡ some other =
      sym (kind_of-tag kind) ∙ (ap (λ (o : Text × Text). kind_of o.0) parts ∙ kind_of-tag other) in
    (some-injective kind other same, ap (λ (o : Text × Text). o.1) parts)

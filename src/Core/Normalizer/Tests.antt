-- ===== src/Core/Normalizer/Tests.antt =====
-- The theorems about the normalizer at concrete inputs.
use rdapify.Base.{◌≡◌, ◌↔◌, true, none, some, [], ◌∷◌}
use rdapify.Base.Text.{text}
use rdapify.Core.Validation.{Fields, object, string, end, field}
use rdapify.Types.Common.{RdapEntity, registrant, registrar, no_entities}
use rdapify.Types.Common.RdapEntity.{entity}
use rdapify.Core.Normalizer.{
  domain_of, domain, ip_of, ip, asn_of, asn, nameserver_of, nameserver, entity_of, summary_of,
  extract_registrar, require_object, check_object_class, check_class, string_field,
}
use rdapify.Core.Normalizer as Normalizer
use rdapify.Core.Normalizer.Classes.{Outcome, normalize-Outcome}
use rdapify.Core.Normalizer.Registrar.{Chosen, extract_registrar_iff}

abbrev fields : Fields
fields =
    field (text "objectClassName") (string (text "domain"))
      (field (text "ldhName") (string (text "A.DE")) end)

abbrev contact : RdapEntity
contact =
    entity
      (record {
        handle = none;
        vcard_array = none;
        roles = registrant ∷ registrar ∷ [];
        events = [];
        links = [];
        remarks = [];
      })
      no_entities

normalize-Outcome_example :
    Outcome
      (domain_of (text "now") (text "s") true (text "a.de"))
      (text "domain")
      (object fields)
      (domain (text "now") (text "s") true (text "a.de") (object fields))
    × Outcome
        (ip_of (text "now") (text "s") true (text "a.de"))
        (text "ip network")
        (object fields)
        (ip (text "now") (text "s") true (text "a.de") (object fields))
    × Outcome
        (asn_of (text "now") (text "s") true 7)
        (text "autnum")
        (object fields)
        (asn (text "now") (text "s") true 7 (object fields))
    × Outcome
        (nameserver_of (text "now") (text "s") true (text "a.de"))
        (text "nameserver")
        (object fields)
        (nameserver (text "now") (text "s") true (text "a.de") (object fields))
    × Outcome
        (entity_of (text "now") (text "s") true (text "a.de"))
        (text "entity")
        (object fields)
        (Normalizer.entity (text "now") (text "s") true (text "a.de") (object fields))
normalize-Outcome_example =
    normalize-Outcome (text "now") (text "s") (text "a.de") 7 true (object fields)

extract_registrar_iff_example :
    (extract_registrar (contact ∷ []) ≡ some (summary_of contact))
    ↔ Chosen (contact ∷ []) (some (summary_of contact))
extract_registrar_iff_example = extract_registrar_iff (contact ∷ []) (some (summary_of contact))

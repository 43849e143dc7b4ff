-- ===== src/Metrics/Redact/Tests.antt =====
-- The theorem about redacted URLs at a concrete input.
use rdapify.Base.{◌≡◌, refl, some, ◌++◌}
use rdapify.Base.Text.{text, is_empty}
use rdapify.Metrics.Redact.{redact_url, redact_domain}
use rdapify.Metrics.Redact.Urls.{userinfo, port_part, IsUrl, redact_url_lem}

parts_there :
    IsUrl (text "https") (some (text "me")) (text "a.de") (some (text "443")) (text "/d?x")
unfolding is_empty
parts_there = record {
  of_scheme = (refl, (refl, (refl, (refl, (refl, tt)))));
  of_user = (refl, (refl, tt));
  of_host = (
    (refl, (refl, (refl, (refl, tt)))),
    (refl, (refl, (refl, (refl, tt)))),
    (refl, (refl, (refl, (refl, tt)))),
  );
  host_there = refl;
  of_port = ((refl, (refl, (refl, tt))), (refl, (refl, (refl, tt))));
  of_tail = refl;
}

redact_url_lem_example :
    redact_url (
      text "https"
      ++ (text "://"
          ++ (userinfo (some (text "me")) (text "a.de" ++ port_part (some (text "443")))
              ++ text "/d?x")))
    ≡ text "https" ++ (text "://" ++ redact_domain (text "a.de"))
redact_url_lem_example =
    redact_url_lem (text "https") (some (text "me")) (text "a.de") (some (text "443")) (text "/d?x")
      parts_there

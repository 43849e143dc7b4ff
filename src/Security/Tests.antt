-- ===== src/Security/Tests.antt =====
-- The theorems about crates/rdap-security at concrete inputs.
use rdapify.Base.{true, false, none, some, [], ◌∷◌, ◌++◌}
use rdapify.Base.Text.{Text, text}
use rdapify.Net.{Ipv4Addr, Ipv6Addr, v4}
use rdapify.Security.Url.{Url, domain}
use rdapify.Security.Http.{Response, answered, bytes, Environment}
use rdapify.Security.Egress.{default_policy, secure_request}
use rdapify.Security.Egress.Vetted.{Clean, secure_request-Clean}
use rdapify.Security.Guard
use rdapify.Security.Guard.{SsrfGuard, check_host, covers}

abbrev localhost_v4 : Ipv4Addr
localhost_v4 = record { bits = 0x7f00_0001 }

abbrev public_v4 : Ipv4Addr
public_v4 = record { bits = 0x0808_0808 }

-- ::ffff:127.0.0.1
abbrev mapped_localhost : Ipv6Addr
mapped_localhost = record { bits = 0xffff_7f00_0001 }

abbrev https_url : Text → Url
https_url host = record {
  as_str = text "https://" ++ host;
  scheme = text "https";
  username = [];
  password = none;
  host = some (domain host);
  host_str = some host;
  port_or_known_default = some 443;
}

abbrev registry_url : Url
registry_url = https_url (text "rdap.example")

-- A redirect for ever, from a registry whose second address is internal.
abbrev response : Response
response = record {
  status = 302;
  location = some (text "https://rdap.example");
  content_type = none;
  retry_after = none;
  cache_control = none;
  content_length = some 2;
  body = bytes (text "{}") ∷ [];
}

abbrev environment : Environment
environment = record {
  parse = λ t. some registry_url;
  join = λ base t. some registry_url;
  is_redirection = λ status. true;
  is_success = λ status. false;
  lookup_host = λ trace host. some (v4 public_v4 ∷ []);
  send = λ trace url. answered response;
}

abbrev guard : SsrfGuard
guard = record { enabled = true; blocked_domains = text "example" ∷ []; allowed_domains = [] }

secure_request-Clean_example : Clean (secure_request environment registry_url default_policy []).1
secure_request-Clean_example = secure_request-Clean environment registry_url default_policy [] tt

-- ===== src/Security/Error.antt =====
-- crates/rdap-security/src/error.rs. The text inside `DnsResolutionFailed` and the `reqwest::Error`
-- inside `Network` are for people only, and left out.
pub data SecurityError : Type 0 where
  blocked_ip private_ip loopback_ip link_local_ip : SecurityError
  invalid_scheme invalid_host credentials_in_url : SecurityError
  dns_resolution_failed dns_rebinding_detected too_many_redirects : SecurityError
  response_too_large invalid_content_type timeout network : SecurityError

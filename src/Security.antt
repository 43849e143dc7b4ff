-- ===== src/Security.antt =====
-- crates/rdap-security/src: what every outbound request has to pass.
pub mod Error
pub mod Ip
pub mod Url
pub mod Http
pub mod Egress
pub mod Resolver
pub mod Guard
mod Tests

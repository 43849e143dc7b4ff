-- ===== src/Bootstrap.antt =====
-- crates/rdap-bootstrap/src/lib.rs, the finding of a registry's server.
pub mod Data
pub mod Resolver
mod Tests

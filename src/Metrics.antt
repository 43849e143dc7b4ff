-- ===== src/Metrics.antt =====
-- crates/rdap-metrics/src: what log lines say of a target (redact.rs).
pub mod Redact

-- ===== src/Core/Fetcher.antt =====
-- crates/rdap-core/src/fetcher.rs, but for the retry utilities (see Core/Retry.antt). Metrics and
-- tracing are left out: they read the values below and change none.
--
-- One logical call at a time: a call has the breaker of its origin to itself. What other tasks may do
-- to a shared breaker between two of its operations is in Core/Breaker/Calls.antt.
pub mod Config
pub mod Attempt
pub mod Retries
pub mod Call
pub mod Sample
mod Tests

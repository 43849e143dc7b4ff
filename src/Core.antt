-- ===== src/Core.antt =====
-- crates/rdap-core/src: the fetcher, its circuit breaker and the validation of responses.
pub mod Breaker
pub mod ErrorClass
pub mod Retry
pub mod Fetcher
pub mod Validation
pub mod Normalizer
mod Tests

-- ===== src/Types.antt =====
-- crates/rdap-types/src: the errors, the shared data of responses with the derived `Deserialize`, and
-- the response types.
pub mod Error
pub mod Json
pub mod Common
pub mod Response

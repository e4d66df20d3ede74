-- ===== src/Decoder.antt =====
-- node-api/src/decoder.rs: events and calls decoded by the types of the metadata.
pub mod Scale
pub mod Types
pub mod Events
pub mod Calls
pub mod Identifiers

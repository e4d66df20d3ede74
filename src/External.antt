-- ===== src/External.antt =====
-- The crates that the program calls and does not contain, as interfaces.
pub mod Codec
pub mod Hashing
pub mod Hex
pub mod Json
pub mod FrameMetadata
pub mod Runtime
pub mod Serde

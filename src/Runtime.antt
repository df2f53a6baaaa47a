-- ===== src/Runtime.antt =====
-- The crate runtime/rust/lana-runtime: the durable store under Lana's host calls.
pub mod Words
pub mod Digest
pub mod Payload
pub mod Store
pub mod Journal
pub mod Codec
pub mod Effects
mod Samples
mod Tests

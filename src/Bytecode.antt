-- ===== src/Bytecode.antt =====
-- The crate vm/rust/lana-bytecode: the LABC format, its loader, encoder and verifier.
pub mod Opcode
pub mod Error
pub mod Chunk
pub mod Float
pub mod Check
pub mod Objects
pub mod Verifier
pub mod Bytes
pub mod Encoder
pub mod Loader
mod Tests

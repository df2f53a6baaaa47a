-- ===== src/Heap.antt =====
-- The accounting of allocations in vm/rust/lana-vm/src/heap.rs.
pub mod State
pub mod Balance
pub mod Registry
pub mod Upkeep
pub mod Slots
pub mod World
pub mod History
pub mod Buffer
mod Tests

-- ===== src/Vm.antt =====
-- vm/rust/lana-vm/src/vm.rs: the register files of call frames, and the instructions that move
-- values and control.
pub mod Registers
pub mod Frames
pub mod Values
pub mod Machine
pub mod Execute
pub mod Dispatch
pub mod Outcome
pub mod Stack
pub mod Nested
mod Tests

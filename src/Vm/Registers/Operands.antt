-- ===== src/Vm/Registers/Operands.antt =====
-- `instruction_max_register` of vm/rust/lana-vm/src/vm.rs against the operand table of the
-- verifier.
use lana.Prelude.{ℕ, ◌+◌, ◌≤◌, ◌<◌, ◌≡◌, min, All, ok, arith}
use lana.Bytecode.Opcode.{OpCode}
use lana.Bytecode.Float.{F64}
use lana.Bytecode.Chunk.{Instruction, Chunk}
use lana.Bytecode.Check.{verify_instruction}
use lana.Bytecode.Check.Meets.{verify_instruction-Accepts}
use lana.Bytecode.Check.Operands.{
  operand, register_slots, range_slots, object_slots, object_ranges, Accepts,
}
use lana.Bytecode.Objects.Declared.{Declared}
use lana.Bytecode.Verifier.Verified.{introduced}
use lana.Vm.Registers.{max_register, instruction_max_register}

-- The registers that an instruction names end at `n`; of an object opcode, those of its operands
-- that name a register, which is one of 256.
pub record Below (op : OpCode) (i : Instruction) (n : ℕ) : Type 0 where
  pub registers : All (λ s. operand i s + 1 ≤ n) (register_slots op)
  pub ranges : All (λ r. 0 < operand i r.1 → operand i r.0 + operand i r.1 ≤ n) (range_slots op)
  pub objects : All (λ s. operand i s < 256 → operand i s + 1 ≤ n) (object_slots op)
  pub object_runs :
      All
        (λ r.
          0 < operand i r.1
          → operand i r.0 + operand i r.1 ≤ 256
          → operand i r.0 + operand i r.1 ≤ n)
        (object_ranges op)

-- As above, and of an object opcode all registers.
pub record Contains (op : OpCode) (i : Instruction) (n : ℕ) : Type 0 where
  pub registers : All (λ s. operand i s + 1 ≤ n) (register_slots op)
  pub ranges : All (λ r. 0 < operand i r.1 → operand i r.0 + operand i r.1 ≤ n) (range_slots op)
  pub objects : All (λ s. operand i s + 1 ≤ n) (object_slots op)
  pub object_runs :
      All (λ r. 0 < operand i r.1 → operand i r.0 + operand i r.1 ≤ n) (object_ranges op)

pub Declared-Contains :
    (op : OpCode) (i : Instruction) (count : ℕ) {n : ℕ}
    → Below op i n
    → Declared op count i
    → count ≤ n
    → Contains op i n
Declared-Contains op i count h d le = ground arith

-- No opcode of version 5 or before is an object opcode.
pub introduced-Contains :
    (op : OpCode) (i : Instruction) {n : ℕ} → Below op i n → introduced op ≤ 5 → Contains op i n
introduced-Contains op i h le = ground arith

below :
    (fl : F64) (op : OpCode) (chunk : Chunk) (i : Instruction) {n : ℕ}
    → Accepts fl op chunk i
    → min (max_register op i + 1) 256 ≤ n
    → Below op i n
unfolding max_register
below fl op chunk i h le = ground arith

pub accepted-Below :
    (fl : F64) (chunk : Chunk) (i : Instruction) (n : ℕ)
    → Accepts fl i.opcode chunk i
    → min (instruction_max_register i + 1) 256 ≤ n
    → Below i.opcode i n
unfolding instruction_max_register
accepted-Below fl chunk i n h le = below fl i.opcode chunk i h le

-- A register file that ends past the registers counted for an instruction, or at 256, has every
-- register and every run of registers that the instruction names, once the verifier has accepted
-- its operands. Of the object opcodes, whose operands `verify_instruction` leaves unchecked, that is
-- every operand for a register that is below 256, and every run of arguments that ends at 256 or
-- before.
pub instruction_max_register-Below :
    (fl : F64) (chunk : Chunk) (i : Instruction) (n : ℕ)
    → verify_instruction fl chunk i ≡ ok tt
    → min (instruction_max_register i + 1) 256 ≤ n
    → Below i.opcode i n
instruction_max_register-Below fl chunk i n h le =
    accepted-Below fl chunk i n ((verify_instruction-Accepts fl chunk i).0 h) le

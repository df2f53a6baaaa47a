-- ===== src/Vm/Registers.antt =====
-- `instruction_max_register` of vm/rust/lana-vm/src/vm.rs.
pub mod Operands
use lana.Prelude.{ℕ, ◌+◌, ◌-◌, Bool, not, ◌&&◌, ltb, ◌==◌, if◌then◌else◌, max}
use lana.Bytecode.Opcode.{OpCode}
use lana.Bytecode.Chunk.{Instruction}
use lana.Bytecode.Objects.Access.{unused}

-- `if let Some(index) = reg(operand) { max = max.max(index) }`
abbrev pub with_reg : ℕ → ℕ → ℕ
with_reg m operand = if operand == unused then m else max m operand

-- `max.max(first + count - 1)`, where the count passes the test of the source
abbrev with_range : Bool → ℕ → ℕ → ℕ → ℕ
with_range used m first count = if used then max m (first + count - 1) else m

-- `reg(ins.a).unwrap_or(0)`
abbrev first_register : Instruction → ℕ
first_register i = with_reg 0 i.a

-- Arguments occupy `c .. c + imm - 1`.
abbrev with_arguments : Instruction → ℕ
with_arguments i = with_range (not (i.imm == unused) && ltb 0 i.imm) (first_register i) i.c i.imm

-- Constructor arguments occupy `b .. b + imm - 1`.
abbrev with_fields : Instruction → ℕ
with_fields i = with_range (ltb 0 i.imm) (first_register i) i.b i.imm

-- Elements occupy `b .. b + c - 1`.
abbrev with_elements : Instruction → ℕ
with_elements i = with_range (not (i.c == unused) && ltb 0 i.c) (first_register i) i.b i.c

abbrev with_three : Instruction → ℕ
with_three i = with_reg (with_reg (first_register i) i.b) i.c

-- `imm` is a register too.
abbrev with_four : Instruction → ℕ
with_four i = with_reg (with_three i) i.imm

pub max_register : OpCode → Instruction → ℕ
max_register OpCode.nop i = 0
max_register OpCode.halt i = 0
max_register OpCode.taskgroup_enter i = 0
max_register OpCode.taskgroup_exit i = 0
max_register OpCode.load_const i = first_register i
max_register OpCode.call i = with_arguments i
max_register OpCode.fork i = with_arguments i
max_register OpCode.host_call i = with_arguments i
max_register OpCode.generator i = with_arguments i
max_register OpCode.async i = with_arguments i
max_register OpCode.value_new i = with_fields i
max_register OpCode.object_new i = with_fields i
max_register OpCode.oo_get i = max (first_register i) i.b
max_register OpCode.oo_set i = max (first_register i) i.b
max_register OpCode.oo_call i = max (first_register i) i.b
max_register OpCode.oo_static_call i = max (first_register i) i.b
max_register OpCode.oo_as_interface i = max (first_register i) i.b
max_register OpCode.array_new i = with_elements i
max_register OpCode.joint_build i = with_elements i
max_register OpCode.adt_build i = with_elements i
max_register OpCode.state_build i = with_four i
max_register OpCode.mix i = with_four i
max_register OpCode.joint_condition i = with_four i
max_register OpCode.observe i = with_four i
max_register OpCode.append_redundant i = with_four i
max_register OpCode.append_complementary i = with_four i
max_register OpCode.bootstrap i = with_four i
max_register OpCode.observe_map i = with_four i
max_register _ i = with_three i

unfoldable pub instruction_max_register : Instruction → ℕ
unfolding max_register
instruction_max_register i = max_register i.opcode i

-- ===== src/Vm/Execute.antt =====
-- The arms of `execute` of vm/rust/lana-vm/src/vm.rs for the plain instructions: NOP, LOAD_CONST,
-- MOVE, LOAD_FUNCTION, the jumps, CALL, RETURN and HALT. `others` stands for the other arms,
-- with the checks in front of the match that concern them.
pub mod Registers
pub mod Charge
pub mod Chain
pub mod Calls
pub mod Resume
pub mod Entry
pub mod Moves
pub mod Balance
pub mod Safety
use lana.Prelude.{
  ℕ, zero, suc, ◌+◌, ◌-◌, Bool, true, false, not, ltb, leb, ◌&&◌, ◌==◌, if◌then◌else◌, Option, none,
  some, List, [], ◌∷◌, length, get_elem?, ok, err, panic, ◌>>=◌, ◌>>◌, or_panic, require,
}
use lana.Bytecode.Opcode.{OpCode}
use lana.Bytecode.Error.{LanaError}
use lana.Bytecode.Chunk.{Instruction, Chunk}
use lana.Heap.State.{release}
use lana.Vm.Values.{Value, ValueKind, plain, from_constant}
use lana.Vm.Machine.{Frame, Vm, Run, fault, current_frame, with_current, store, charged}

abbrev pub max_call_frames : ℕ
max_call_frames = 64

-- `self.current_frame_mut().registers[index] = value`
unfoldable pub write_register : Vm → ℕ → Value → Run Vm
unfolding current_frame with_current store
write_register vm index value = do
  frame ← current_frame vm
  registers ← store frame.registers index value
  ok (with_current vm (record frame { registers = registers }))

unfoldable pub read_register : Vm → ℕ → Run Value
unfolding current_frame
read_register vm index = do frame ← current_frame vm; or_panic (get_elem? frame.registers index)

unfoldable pub load_const : Chunk → Instruction → Vm → Run Vm
unfolding write_register from_constant
load_const chunk i vm = do
  constant ← or_panic (get_elem? chunk.constants i.imm)
  write_register vm i.a (from_constant constant)

unfoldable pub move : Instruction → Vm → Run Vm
unfolding current_frame with_current store
move i vm = do
  frame ← current_frame vm
  value ← or_panic (get_elem? frame.registers i.b)
  history ← or_panic (get_elem? frame.histories i.b)
  registers ← store frame.registers i.a value
  histories ← store frame.histories i.a history
  ok (with_current vm (record frame { registers = registers; histories = histories }))

-- `Value::function(b)`
unfoldable pub load_function : Instruction → Vm → Run Vm
unfolding write_register
load_function i vm = write_register vm i.a (plain (ValueKind.function i.b))

unfoldable pub jump : Instruction → Vm → Run Vm
jump i vm = ok (record vm { ip = i.imm })

-- The Boolean that a value is.
unfoldable pub boolean : ValueKind → Option Bool
boolean (ValueKind.bool b) = some b
boolean _ = none

-- `sense` is that of the opcode: whether a true condition jumps.
unfoldable pub jump_if : Bool → Instruction → Vm → Run Vm
unfolding read_register boolean
jump_if sense i vm = do
  condition ← read_register vm i.a
  elim (boolean condition.kind) [
    | none ↦ fault LanaError.type vm
    | some b ↦ ok (if (if sense then b else not b) then record vm { ip = i.imm } else vm)
  ]

-- The loop that copies the arguments from `index` on, with `count` of them left.
unfoldable pub copy_arguments : Frame → ℕ → ℕ → ℕ → Frame → Run Frame
unfolding store
copy_arguments caller first index zero callee = ok callee
copy_arguments caller first index (suc count) callee = do
  value ← or_panic (get_elem? caller.registers (first + index))
  registers ← store callee.registers index value
  history ← or_panic (get_elem? caller.histories (first + index))
  histories ← store callee.histories index history
  copy_arguments caller first (suc index) count
      (record callee { registers = registers; histories = histories })

unfoldable pub push : Vm → ℕ → Frame → Vm
push vm entry frame = record vm { frames = frame ∷ vm.frames; ip = entry }

module _ (slot : ℕ) (chunk : Chunk) where
  unfoldable pub call : Instruction → Vm → Run Vm
  unfolding current_frame charged copy_arguments push
  call i vm = do
    f ← or_panic (get_elem? chunk.functions i.b)
    require (i.imm == f.arity) (record { code = LanaError.type; machine = vm })
    require (ltb (length vm.frames) max_call_frames)
        (record { code = LanaError.limit; machine = vm })
    size ← or_panic (get_elem? vm.max_registers i.b)
    (vm₁, callee) ← charged slot vm size
    caller ← current_frame vm₁
    filled ←
        copy_arguments caller i.c 0 i.imm
          (record callee { return_ip = vm.ip; return_register = i.a; function = i.b })
    ok (push vm₁ f.entry filled)

-- `self.frames.pop()` with the drop of the frame, the result in the caller's register, and its ip
unfoldable pub resume : Vm → Value → Frame → List Frame → Run Vm
unfolding store
resume vm returned frame [] = ok (record vm { result = returned; running = false })
resume vm returned frame (caller ∷ rest) = do
  registers ← store caller.registers frame.return_register returned
  ok (record vm {
    frames = record caller { registers = registers } ∷ rest;
    heap = release vm.heap frame.allocation;
    ip = frame.return_ip;
  })

-- `RETURN` in a frame of an ordinary call, or in the entry frame.
unfoldable pub return : Instruction → Vm → Run Vm
unfolding current_frame resume
return i vm = elim vm.frames [
  | [] ↦ panic
  | frame ∷ rest ↦ do
    returned ← or_panic (get_elem? frame.registers i.a)
    resume vm returned frame rest
]

unfoldable pub halt : Vm → Run Vm
halt vm = ok (record vm { running = false })

-- The instructions that move values and control between registers and frames.
unfoldable pub is_plain : OpCode → Bool
is_plain OpCode.nop = true
is_plain OpCode.load_const = true
is_plain OpCode.move = true
is_plain OpCode.load_function = true
is_plain OpCode.jump = true
is_plain OpCode.jump_if_true = true
is_plain OpCode.jump_if_false = true
is_plain OpCode.call = true
is_plain OpCode.return = true
is_plain OpCode.halt = true
is_plain _ = false

-- The plain instruction that is not in the list of those allowed in a callback of a dataset plan.
abbrev pub is_halt : OpCode → Bool
is_halt OpCode.halt = true
is_halt _ = false

module _ (slot : ℕ) (others : Instruction → Vm → Run Vm) (chunk : Chunk) where
  pub execute_opcode : OpCode → Instruction → Vm → Run Vm
  unfolding load_const move load_function jump jump_if call return halt
  execute_opcode OpCode.nop i vm = ok vm
  execute_opcode OpCode.load_const i vm = load_const chunk i vm
  execute_opcode OpCode.move i vm = move i vm
  execute_opcode OpCode.load_function i vm = load_function i vm
  execute_opcode OpCode.jump i vm = jump i vm
  execute_opcode OpCode.jump_if_true i vm = jump_if true i vm
  execute_opcode OpCode.jump_if_false i vm = jump_if false i vm
  execute_opcode OpCode.call i vm = call slot chunk i vm
  execute_opcode OpCode.return i vm = return i vm
  execute_opcode OpCode.halt i vm = halt vm
  execute_opcode _ i vm = others i vm

  unfoldable pub execute : Instruction → Vm → Run Vm
  unfolding execute_opcode
  execute i vm =
      if ltb 0 vm.pure_callback_depth && is_halt i.opcode
      then fault LanaError.unsupported_operation vm
      else execute_opcode i.opcode i vm

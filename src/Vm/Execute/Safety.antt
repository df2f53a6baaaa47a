-- ===== src/Vm/Execute/Safety.antt =====
-- The plain instructions of vm/rust/lana-vm/src/vm.rs in a chunk that the verifier accepts.
use lana.Prelude.{
  ℕ, suc, true, false, List, ◌∷◌, length, get_elem?, get_elem?-some, some, ◌≡◌, ◌≢◌, refl, arith,
  subst, sym, ◌∙◌, ltb, ◌&&◌,
}
use lana.Bytecode.Opcode.{OpCode}
use lana.Bytecode.Float.{F64}
use lana.Bytecode.Chunk.{Instruction, Chunk}
use lana.Bytecode.Check.Operands.{Accepts}
use lana.Bytecode.Objects.Regions.{Branches, Flow, next, target}
use lana.Vm.Registers.Operands.{Below}
use lana.Vm.Frames.Named.{Suffices-Below}
use lana.Vm.Machine.{Frame, Vm, Run}
use lana.Vm.Stack.{IsWellFormed, Safe, Stack-Flow, Stack-top, Holds}
use lana.Vm.Execute.{is_halt, is_plain, execute_opcode, execute}
use lana.Vm.Execute.Registers.{load_const-Safe, load_function-Safe, move-Safe, jump_if-Safe}
use lana.Vm.Execute.Calls.{call-Safe}
use lana.Vm.Execute.Resume.{return-Safe}

module _ (slot : ℕ) (others : Instruction → Vm → Run Vm) (fl : F64) (chunk : Chunk) (vm : Vm)
    (i : Instruction) (at_ip : get_elem? chunk.code vm.ip ≡ some i)
    (w : IsWellFormed chunk vm) where
  -- The machine after the fetch.
  abbrev fetched : Vm
  fetched = record vm { ip = suc vm.ip }

  moved : (ip : ℕ) → Flow chunk vm.ip ip → IsWellFormed chunk (record vm { ip = ip })
  moved ip flow = record {
    stack = Stack-Flow chunk vm.frames flow w.stack;
    depth = w.depth;
    outside = w.outside;
    sizes = w.sizes;
    heap = w.heap;
  }

  on :
      (op : OpCode)
      → i.opcode ≡ op
      → op ≢ OpCode.return
      → op ≢ OpCode.halt
      → op ≢ OpCode.jump
      → IsWellFormed chunk fetched
  on op e r h j =
      moved (suc vm.ip)
        (next i at_ip (λ p. r (sym e ∙ p)) (λ p. h (sym e ∙ p)) (λ p. j (sym e ∙ p)))

  away : (op : OpCode) → i.opcode ≡ op → Branches op → IsWellFormed chunk (record vm { ip = i.imm })
  away op e b = moved i.imm (target i at_ip (subst Branches (sym e) b))

  module _ (f : Frame) (rest : List Frame) (e : vm.frames ≡ f ∷ rest)
      (holds : Holds chunk f vm.ip) where
    arm :
        (op : OpCode)
        → i.opcode ≡ op
        → is_plain op ≡ true
        → Accepts fl op chunk i
        → Below op i (length f.registers)
        → Safe chunk fetched (execute_opcode slot others chunk op i fetched)
    unfolding is_plain execute_opcode
    arm OpCode.nop o p a b = (refl, refl, λ runs. on OpCode.nop o (λ q. cc) (λ q. cc) (λ q. cc))
    arm OpCode.load_const o p a b =
        load_const-Safe chunk fetched f rest e
          (on OpCode.load_const o (λ q. cc) (λ q. cc) (λ q. cc)) i (omega (arith, b.registers.0))
          (omega (arith, a.constants.0))
    arm OpCode.move o p a b =
        move-Safe chunk fetched f rest e (on OpCode.move o (λ q. cc) (λ q. cc) (λ q. cc)) i
          (omega (arith, b.registers.0)) (omega (arith, b.registers.1.0)) holds.histories
    arm OpCode.load_function o p a b =
        load_function-Safe chunk fetched f rest e
          (on OpCode.load_function o (λ q. cc) (λ q. cc) (λ q. cc)) i (omega (arith, b.registers.0))
    arm OpCode.jump o p a b = (refl, refl, λ runs. away OpCode.jump o Branches.jump)
    arm OpCode.jump_if_true o p a b =
        jump_if-Safe chunk fetched f rest e (on OpCode.jump_if_true o (λ q. cc) (λ q. cc) (λ q. cc))
          true i (omega (arith, b.registers.0)) (away OpCode.jump_if_true o Branches.jump_if_true)
    arm OpCode.jump_if_false o p a b =
        jump_if-Safe chunk fetched f rest e
          (on OpCode.jump_if_false o (λ q. cc) (λ q. cc) (λ q. cc)) false i
          (omega (arith, b.registers.0)) (away OpCode.jump_if_false o Branches.jump_if_false)
    arm OpCode.call o p a b =
        let (g, found) = get_elem?-some chunk.functions i.b (omega (arith, a.functions.0)) in
        call-Safe chunk fetched slot i g f rest (on OpCode.call o (λ q. cc) (λ q. cc) (λ q. cc)) e
          holds.histories found b.ranges.0 (omega (arith, b.registers.0))
    arm OpCode.return o p a b =
        return-Safe chunk fetched vm.ip i f rest w e (omega (arith, b.registers.0))
    arm OpCode.halt o p a b = (refl, refl, λ runs. absurd cc)
    arm _ o p a b = absurd cc

  -- A plain instruction that the verifier accepts, executed on a well-formed machine (outside of a
  -- callback of a dataset plan, with balanced books) whose ip is at it, does not panic: it fails with a code, or leaves the instruction counter and its limit as
  -- they were and, if the machine runs on, a well-formed machine.
  pub execute-Safe :
      is_plain i.opcode ≡ true
      → Accepts fl i.opcode chunk i
      → Safe chunk fetched (execute slot others chunk i fetched)
  unfolding execute
  execute-Safe plain accepts =
      let (f, rest, e, holds) = Stack-top chunk vm.ip vm.frames w.stack in
      let done =
        arm f rest e holds i.opcode refl plain accepts
          (Suffices-Below fl chunk (length f.registers) vm.ip i at_ip accepts holds.suffices) in
      let allowed : (ltb 0 vm.pure_callback_depth && is_halt i.opcode) ≡ false =
        rw w.outside refl in
      rw allowed done

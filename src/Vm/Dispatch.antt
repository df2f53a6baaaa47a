-- ===== src/Vm/Dispatch.antt =====
-- `Vm::new`, `run`, `dispatch_loop` and `fail` of vm/rust/lana-vm/src/vm.rs, outside of the event
-- loop, which only asynchronous functions enter.
pub mod Returns
use lana.Prelude.{
  ℕ, zero, suc, ◌+◌, ◌-◌, ◌*◌, Bool, true, false, ltb, ◌==◌, if◌then◌else◌, Option, none, some,
  List, [], ◌∷◌, get_elem?, Result, ok, err, panic, ◌>>=◌,
}
use lana.Bytecode.Opcode.{discriminant, max_registers}
use lana.Bytecode.Error.{LanaError, LanaErrorInfo}
use lana.Bytecode.Float.{F64}
use lana.Bytecode.Chunk.{Instruction, Chunk}
use lana.Bytecode.Objects.Descriptor.{Serde}
use lana.Bytecode.Verifier.{Verdict, verify}
use lana.Heap.State.{new_heap}
use lana.Vm.Values.{ValueKind, plain}
use lana.Vm.Frames.{compute_max_registers}
use lana.Vm.Machine.{Vm, VmError, Run, Fault, new_frame}
use lana.Vm.Execute.{execute}

-- What has been reported already is kept.
abbrev pub first_error : Option VmError → VmError → Option VmError
first_error (some e) new = some e
first_error none new = some new

unfoldable pub fail : LanaError → ℕ → ℕ → ℕ → Vm → Vm
fail code ip opcode line vm = record vm {
  error = first_error vm.error (record { code = code; ip = ip; opcode = opcode; line = line });
  result = plain ValueKind.null;
  running = false;
}

-- How a turn of the loop ends: with the machine for the next one, or with what the loop returns.
pub data Turn : Type 0 where
  go_on : Vm → Turn
  stop : LanaError → Vm → Turn

abbrev stop_at : LanaError → Vm → Turn
stop_at code vm = stop code (fail code vm.ip 0 0 vm)

-- What the loop makes of the outcome of `execute`.
unfoldable pub settle : Bool → Instruction → Run Vm → Run Turn
unfolding fail discriminant
settle single_step i (ok vm) =
    ok (go_on (if single_step then record vm { running = false } else vm))
settle single_step i (err f) =
    ok (stop f.code (fail f.code (f.machine.ip - 1) (discriminant i.opcode) i.line f.machine))
settle single_step i panic = panic

abbrev pub breaks : Option ℕ → ℕ → Bool
breaks (some at_line) line = at_line == line
breaks none line = false

module _ (slot : ℕ) (others : Instruction → Vm → Run Vm) (chunk : Chunk) where
  -- The execution of the instruction at the ip, if there is one, after the count.
  unfoldable pub execute_at : Bool → Vm → Option Instruction → Run Turn
  unfolding execute settle fail
  execute_at single_step vm none = ok (stop_at LanaError.jump vm)
  execute_at single_step vm (some i) =
      if breaks vm.breakpoint_line i.line
      then ok (stop LanaError.ok (record vm { breakpoint_hit = true; running = false }))
      else settle single_step i (execute slot others chunk i (record vm { ip = suc vm.ip }))

  -- The body of the loop.
  unfoldable pub turn : Bool → Vm → Run Turn
  unfolding execute_at fail
  turn single_step vm =
      if ltb vm.memory_limit vm.heap.live
      then ok (stop_at LanaError.oom vm)
      else if vm.cancelled
      then ok (stop_at LanaError.cancelled vm)
      else let counted = record vm { instruction_count = suc vm.instruction_count } in
        if ltb vm.instruction_count vm.instruction_limit
        then execute_at single_step counted (get_elem? chunk.code counted.ip)
        else ok (stop_at LanaError.limit counted)

  -- The loop, with fuel for its turns; `none` when the fuel does not suffice.
  unfoldable pub dispatch_loop : Bool → ℕ → Vm → Option (Run (LanaError × Vm))
  unfolding turn
  dispatch_loop single_step zero vm = none
  dispatch_loop single_step (suc fuel) vm =
      if vm.running
      then elim (turn single_step vm) [
        | ok (go_on next) ↦ dispatch_loop single_step fuel next
        | ok (stop code last) ↦ some (ok (code, last))
        | err f ↦ some (err f)
        | panic ↦ some panic
      ]
      else some (ok (LanaError.ok, vm))

  -- The body of `Vm::run` under the verdict of the verifier.
  unfoldable pub start : ℕ → Vm → Verdict → Option (Run (LanaError × Vm))
  unfolding dispatch_loop fail
  start fuel vm (err info) = some (ok (info.code, fail info.code info.ip info.opcode info.line vm))
  start fuel vm (ok _) = dispatch_loop false fuel vm
  start fuel vm panic = some panic

  -- `Vm::run`, without the workers of the scheduler, which run the tasks that FORK makes.
  unfoldable pub run : F64 → Serde → ℕ → Vm → Option (Run (LanaError × Vm))
  unfolding start
  run fl sd fuel vm = start fuel vm (verify fl sd chunk)

-- The machine for a chunk whose functions have these sizes: 256 MiB and fifty million instructions.
unfoldable pub machine : Chunk → List ℕ → Vm
unfolding new_heap new_frame
machine chunk sizes = record {
  ip = chunk.entry;
  running = true;
  instruction_limit = 50000000;
  instruction_count = 0;
  memory_limit = 256 * 1024 * 1024;
  heap = new_heap (256 * 1024 * 1024);
  frames = new_frame max_registers ∷ [];
  max_registers = sizes;
  result = plain ValueKind.null;
  error = none;
  cancelled = false;
  breakpoint_line = none;
  breakpoint_hit = false;
  pure_callback_depth = 0;
}

-- `Vm::new`
unfoldable pub new : Chunk → Result LanaError Vm
unfolding compute_max_registers machine
new chunk = do sizes ← compute_max_registers chunk; ok (machine chunk sizes)

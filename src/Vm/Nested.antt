-- ===== src/Vm/Nested.antt =====
-- `run_function_args_owned` of vm/rust/lana-vm/src/vm.rs without an owner: a function run to its end
-- from inside an instruction.
pub mod Enter
pub mod Turns
pub mod Restored
use lana.Prelude.{
  ℕ, zero, suc, ◌-◌, ◌≤◌, Bool, true, false, not, ◌&&◌, ltb, leb, ◌==◌, if◌then◌else◌, Option, none,
  some, List, [], ◌∷◌, ◌++◌, drop, length, get_elem?, ok, err, panic, ◌>>=◌, ◌>>◌, ok_or, or_panic,
  require,
}
use lana.Bytecode.Error.{LanaError}
use lana.Bytecode.Chunk.{Instruction, Function, Chunk}
use lana.Heap.State
use lana.Heap.State.{release}
use lana.Vm.Values.{Value}
use lana.Vm.Machine.{Frame, Vm, Run, Fault, fault, current_frame, charged}
use lana.Vm.Execute.{max_call_frames, push, execute}

-- `count` frames are dropped from the top, each with its reservation.
unfoldable pub drop_frames : ℕ → State.State → List Frame → State.State × List Frame
drop_frames zero heap frames = (heap, frames)
drop_frames (suc count) heap [] = (heap, [])
drop_frames (suc count) heap (f ∷ frames) = drop_frames count (release heap f.allocation) frames

-- `self.frames.truncate(saved_frame_count); self.ip = saved_ip`
unfoldable pub abandon : ℕ → ℕ → Vm → Vm
unfolding drop_frames
abandon saved saved_ip vm =
    let (heap, frames) = drop_frames (length vm.frames - saved) vm.heap vm.frames in
    record vm { heap = heap; frames = frames; ip = saved_ip }

-- `callee.registers[..args.len()].clone_from_slice(args)`
unfoldable pub with_arguments : List Value → Frame → Run Frame
with_arguments args callee =
    if leb (length args) (length callee.registers)
    then ok (record callee { registers = args ++ drop (length args) callee.registers })
    else panic

-- What follows the loop: the result in the caller's register, which lies `saved` frames up.
unfoldable pub take_result : ℕ → ℕ → Vm → Run (Value × Vm)
take_result saved scratch vm = if ltb (length vm.frames) saved then panic else do
  frame ← or_panic (get_elem? (drop (length vm.frames - saved) vm.frames) 0)
  value ← or_panic (get_elem? frame.registers scratch)
  ok (value, vm)

module _ (slot : ℕ) (chunk : Chunk) where
  -- The checks and the frame in front of the loop.
  unfoldable pub enter : ℕ → List Value → ℕ → Vm → Run Vm
  unfolding charged current_frame with_arguments push
  enter function_index args scratch vm = do
    f ←
        ok_or (get_elem? chunk.functions function_index)
          (record { code = LanaError.type; machine = vm })
    require (f.arity == length args) (record { code = LanaError.type; machine = vm })
    size ← or_panic (get_elem? vm.max_registers function_index)
    caller ← current_frame vm
    require (leb (length args) size && ltb scratch (length caller.registers))
        (record { code = LanaError.format; machine = vm })
    require (ltb (length vm.frames) max_call_frames)
        (record { code = LanaError.limit; machine = vm })
    (vm₁, callee) ← charged slot vm size
    filled ←
        with_arguments args (record callee {
          return_ip = vm.ip;
          return_register = scratch;
          function = function_index;
        })
    ok (push vm₁ f.entry filled)

-- The outcome of an instruction inside the loop.
unfoldable pub keep_going : ℕ → ℕ → Run Vm → Run Vm
unfolding abandon
keep_going saved saved_ip (ok vm) = ok vm
keep_going saved saved_ip (err f) = fault f.code (abandon saved saved_ip f.machine)
keep_going saved saved_ip panic = panic

-- The result is taken when the loop has ended.
unfoldable pub finish : ℕ → ℕ → Option (Run Vm) → Option (Run (Value × Vm))
unfolding take_result
finish saved scratch none = none
finish saved scratch (some outcome) = some (outcome >>= take_result saved scratch)

module _ (slot : ℕ) (others : Instruction → Vm → Run Vm) (chunk : Chunk) where
  -- The instruction at the ip, if there is one, and the count.
  unfoldable pub nested_at : ℕ → ℕ → Vm → Option Instruction → Run Vm
  unfolding execute keep_going abandon
  nested_at saved saved_ip vm none = fault LanaError.jump (abandon saved saved_ip vm)
  nested_at saved saved_ip vm (some i) =
      let counted = record vm { instruction_count = suc vm.instruction_count } in
      if ltb vm.instruction_count vm.instruction_limit
      then keep_going saved saved_ip
          (execute slot others chunk i (record counted { ip = suc vm.ip }))
      else fault LanaError.limit (abandon saved saved_ip counted)

  -- The body of the loop.
  unfoldable pub nested_turn : ℕ → ℕ → Vm → Run Vm
  unfolding nested_at abandon
  nested_turn saved saved_ip vm =
      if vm.cancelled
      then fault LanaError.cancelled (abandon saved saved_ip vm)
      else if ltb vm.memory_limit vm.heap.live
      then fault LanaError.oom (abandon saved saved_ip vm)
      else nested_at saved saved_ip vm (get_elem? chunk.code vm.ip)

  -- The loop, with fuel for its turns.
  unfoldable pub nested_loop : ℕ → ℕ → ℕ → Vm → Option (Run Vm)
  unfolding nested_turn
  nested_loop saved saved_ip zero vm = none
  nested_loop saved saved_ip (suc fuel) vm =
      if ltb saved (length vm.frames) && vm.running
      then elim (nested_turn saved saved_ip vm) [
        | ok after ↦ nested_loop saved saved_ip fuel after
        | err f ↦ some (err f)
        | panic ↦ some panic
      ]
      else some (ok vm)

  unfoldable pub run_entered : ℕ → ℕ → Vm → Run Vm → Option (Run (Value × Vm))
  unfolding nested_loop finish
  run_entered fuel scratch vm (ok entered) =
      finish (length vm.frames) scratch (nested_loop (length vm.frames) vm.ip fuel entered)
  run_entered fuel scratch vm (err f) = some (err f)
  run_entered fuel scratch vm panic = some panic

  unfoldable pub run_function_args : ℕ → ℕ → List Value → ℕ → Vm → Option (Run (Value × Vm))
  unfolding enter run_entered
  run_function_args fuel function_index args scratch vm =
      run_entered fuel scratch vm (enter slot chunk function_index args scratch vm)

-- ===== src/Vm/Nested/Enter.antt =====
-- The start of a nested run in vm/rust/lana-vm/src/vm.rs.
use lana.Prelude.{
  ℕ, ◌<◌, ◌≤◌, ltb, leb, ◌&&◌, ◌==◌, ltb→lt, le→leb, List, ◌∷◌, ◌++◌, drop, length, length-append,
  length-drop, length-replicate, get_elem?, ◌≡◌, inl, inr, ok, err, panic, refl, arith,
}
use lana.Bytecode.Chunk.{Chunk}
use lana.Vm.Values.{Value, ValueKind, plain, no_history}
use lana.Vm.Machine.{Frame, Vm, Run, current_frame, new_frame, charged}
use lana.Vm.Stack.{held, IsWellFormed, Stack-top}
use lana.Vm.Execute.{max_call_frames}
use lana.Vm.Execute.Registers.{top-eq}
use lana.Vm.Execute.Charge.{charged-Charged}
use lana.Vm.Execute.Chain.{require_then, or_panic_then, ok_or_then, ok_then, err_then}
use lana.Vm.Execute.Calls.{pushed-IsWellFormed}
use lana.Vm.Execute.Balance.{Above}
use lana.Vm.Nested.{with_arguments, enter}

-- The frames and the ip are as they were.
abbrev pub Unmoved : Vm → Vm → Type 0
Unmoved vm after = (after.frames ≡ vm.frames) × (after.ip ≡ vm.ip)

-- A nested run has started, or nothing has moved.
abbrev pub Ready : Chunk → Vm → ℕ → Run Vm → Type 0
Ready chunk vm scratch (ok entered) =
    IsWellFormed chunk entered
    × Above vm.frames vm.ip scratch entered.frames
    × (entered.instruction_count ≡ vm.instruction_count)
    × (entered.instruction_limit ≡ vm.instruction_limit)
    × ((c : Frame) × (rest : List Frame) × (vm.frames ≡ c ∷ rest) × (scratch < length c.registers))
Ready chunk vm scratch (err f) = Unmoved vm f.machine
Ready chunk vm scratch panic = ⊥

with_arguments-eq :
    (args : List Value) (callee : Frame)
    → length args ≤ length callee.registers
    → with_arguments args callee
      ≡ ok (record callee { registers = args ++ drop (length args) callee.registers })
unfolding with_arguments
with_arguments-eq args callee h = rw (le→leb (length args) (length callee.registers) h)

module _ (slot : ℕ) (chunk : Chunk) (vm : Vm) (w : IsWellFormed chunk vm) where
  pub enter-Ready :
      (function_index : ℕ) (args : List Value) (scratch : ℕ)
      → Ready chunk vm scratch (enter slot chunk function_index args scratch vm)
  unfolding enter
  enter-Ready function_index args scratch =
      let Q = Ready chunk vm scratch in
      let (caller, rest, e, holds) = Stack-top chunk vm.ip vm.frames w.stack in
      ok_or_then Q (get_elem? chunk.functions function_index) _ _ (refl, refl)
        (λ g found.
          let (size, at_k, sized) = w.sizes.placed function_index g found in
          require_then Q (g.arity == length args) _ _ (refl, refl)
            (λ arity. or_panic_then Q (get_elem? vm.max_registers function_index) _ at_k (
              ok_then Q (current_frame vm) _ (top-eq vm caller rest e) (
                require_then Q (leb (length args) size && ltb scratch (length caller.registers)) _ _
                  (refl, refl)
                  (λ fits.
                    require_then Q (ltb (length vm.frames) max_call_frames) _ _ (refl, refl)
                      (λ deep. (elim (charged-Charged slot size (held vm.frames) vm w.heap) [
                        | inl (failure, failed, _, still, at) ↦
                            err_then Q (charged slot vm size) _ failed (still, at)
                        | inr (heap, bytes, paid, fit) ↦
                            let blank = record (new_frame size) {
                              allocation = bytes;
                              return_ip = vm.ip;
                              return_register = scratch;
                              function = function_index;
                            } in
                            let width = length-replicate size (plain ValueKind.null) in
                            let room : length args ≤ size = ground arith in
                            let slot_fits : scratch < length caller.registers = ground arith in
                            let filled = record blank {
                              registers = args ++ drop (length args) blank.registers;
                            } in
                            let wide : length filled.registers ≡ size = omega (
                              arith,
                              width,
                              room,
                              length-append args (drop (length args) blank.registers),
                              length-drop (length args) blank.registers,
                            ) in
                            ok_then Q (charged slot vm size) _ paid (
                              ok_then Q (with_arguments args blank) _
                                (with_arguments-eq args blank (omega (arith, width, room)))
                                (
                                  pushed-IsWellFormed chunk vm g scratch caller filled rest heap
                                      size bytes w e (ltb→lt _ _ deep) slot_fits sized.suffices fit
                                      wide (length-replicate size no_history) refl refl refl,
                                  inl (refl, refl, refl),
                                  refl,
                                  refl,
                                  (caller, rest, e, slot_fits),
                                ))
                      ])))))))

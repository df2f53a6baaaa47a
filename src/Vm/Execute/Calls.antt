-- ===== src/Vm/Execute/Calls.antt =====
-- CALL of vm/rust/lana-vm/src/vm.rs.
use lana.Prelude.{
  length-replicate, length-set, ℕ, zero, suc, ◌+◌, ◌<◌, ◌≤◌, ltb, ◌==◌, List, ◌∷◌, length,
  get_elem?, get_elem?-some, set, some, ◌≡◌, inl, inr, ok, refl, arith, subst, sym, ◌∙◌, ==_iff,
  ltb→lt,
}
use lana.Bytecode.Chunk.{Instruction, Function, Chunk}
use lana.Heap.State
use lana.Heap.State.{Admitted, charge_kept, charge, resize_to, resize, reserve, release}
use lana.Heap.Balance.{Fits, Fits-held}
use lana.Vm.Values.{ValueKind, plain, no_history}
use lana.Vm.Frames.Regions.{Suffices}
use lana.Vm.Machine.{Frame, Vm, current_frame, new_frame, charged}
use lana.Vm.Outcome.{Outcome}
use lana.Vm.Stack.{Stack, held, IsWellFormed, Safe, SameShape}
use lana.Vm.Execute.{copy_arguments, push, call, max_call_frames}
use lana.Vm.Execute.Charge.{charged-Charged}
use lana.Vm.Execute.Registers.{store-set, top-eq}
use lana.Vm.Execute.Chain.{require_then, or_panic_then, ok_then, err_then}

-- The arguments are copied one after another.
copied :
    (caller : Frame) (first index count : ℕ) (callee : Frame)
    → length callee.histories ≡ length callee.registers
    → length caller.histories ≡ length caller.registers
    → index + count ≤ length callee.registers
    → (0 < count → first + (index + count) ≤ length caller.registers)
    → (filled : Frame) × (copy_arguments caller first index count callee ≡ ok filled)
      × SameShape callee filled
      × (filled.function ≡ callee.function)
unfolding copy_arguments
copied caller first index zero callee tall even room from = (
  callee,
  refl,
  record {
    registers = refl;
    histories = refl;
    return_ip = refl;
    return_register = refl;
    allocation = refl;
  },
  refl,
)
copied caller first index (suc count) callee tall even room from =
    let here : first + index < length caller.registers = omega (arith, from) in
    let (value, at_r) = get_elem?-some caller.registers (first + index) here in
    let (history, at_h) = get_elem?-some caller.histories (first + index) (omega arith) in
    let registers = set callee.registers index value in
    let histories = set callee.histories index history in
    let width = length-set callee.registers index value in
    let height = length-set callee.histories index history in
    let (filled, done, same, named) =
      copied caller first (suc index) count
        (record callee { registers = registers; histories = histories }) (height ∙ tall ∙ sym width)
        even (omega (arith, width)) (λ more. omega (arith, from)) in
    (
      filled,
      rw
          (
            at_r,
            store-set callee.registers index value (omega arith),
            at_h,
            store-set callee.histories index history (omega arith),
          )
          done,
      record {
        registers = same.registers ∙ width;
        histories = same.histories ∙ height;
        return_ip = same.return_ip;
        return_register = same.return_register;
        allocation = same.allocation;
      },
      named,
    )

module _ (chunk : Chunk) (vm : Vm) where
  -- The pushed frame stands on the stack it came from.
  pub pushed-IsWellFormed :
      (g : Function) (register : ℕ) (f filled : Frame) (rest : List Frame) (heap : State.State)
      (size bytes : ℕ)
      → IsWellFormed chunk vm
      → vm.frames ≡ f ∷ rest
      → length vm.frames < 64
      → register < length f.registers
      → Suffices chunk size g.entry
      → Fits heap (held vm.frames + bytes)
      → length filled.registers ≡ size
      → length filled.histories ≡ size
      → filled.return_ip ≡ vm.ip
      → filled.return_register ≡ register
      → filled.allocation ≡ bytes
      → IsWellFormed chunk (push (record vm { heap = heap }) g.entry filled)
  unfolding push
  pushed-IsWellFormed g register f filled rest heap size bytes w e deep to enough fits width height
        ip reg paid =
      record {
        stack =
            subst (λ fs. Stack chunk g.entry (filled ∷ fs)) (sym e)
              (
                record {
                  histories = height ∙ sym width;
                  suffices = subst (λ n. Suffices chunk n g.entry) (sym width) enough;
                },
                subst (λ r. r < length f.registers) (sym reg) to,
                subst (λ at. Stack chunk at (f ∷ rest)) (sym ip)
                    (subst (Stack chunk vm.ip) e w.stack),
              );
        depth = omega (arith, deep);
        outside = w.outside;
        sizes = w.sizes;
        heap = Fits-held heap _ _ (omega (arith, paid)) fits;
      }

  -- CALL pushes a frame for the function with the arguments in it, or fails.
  pub call-Safe :
      (slot : ℕ) (i : Instruction) (g : Function) (f : Frame) (rest : List Frame)
      → IsWellFormed chunk vm
      → vm.frames ≡ f ∷ rest
      → length f.histories ≡ length f.registers
      → get_elem? chunk.functions i.b ≡ some g
      → (0 < i.imm → i.c + i.imm ≤ length f.registers)
      → i.a < length f.registers
      → Safe chunk vm (call slot chunk i vm)
  unfolding call
  call-Safe slot i g f rest w e even found from to =
      let (size, at_b, sized) = w.sizes.placed i.b g found in
      or_panic_then (Safe chunk vm) (get_elem? chunk.functions i.b) _ found (
        require_then (Safe chunk vm) (i.imm == g.arity) _ _ (Outcome.type, refl)
          (λ arity.
            require_then (Safe chunk vm) (ltb (length vm.frames) max_call_frames) _ _
              (Outcome.limit, refl)
              (λ deep.
                or_panic_then (Safe chunk vm) (get_elem? vm.max_registers i.b) _ at_b
                  (elim (charged-Charged slot size (held vm.frames) vm w.heap) [
                    | inl (failure, failed, named, still, _) ↦
                        err_then (Safe chunk vm) (charged slot vm size) _ failed
                          (subst Outcome (sym named) Outcome.oom, still)
                    | inr (heap, bytes, paid, fits) ↦
                        let blank = record (new_frame size) {
                          allocation = bytes;
                          return_ip = vm.ip;
                          return_register = i.a;
                          function = i.b;
                        } in
                        let width = length-replicate size (plain ValueKind.null) in
                        let height = length-replicate size no_history in
                        let count = (==_iff i.imm g.arity).0 arity in
                        let (filled, done, same, named) =
                          copied f i.c 0 i.imm blank (height ∙ sym width) even
                            (omega (arith, count, width, sized.arguments))
                            (λ more. omega (arith, from more)) in
                        ok_then (Safe chunk vm) (charged slot vm size) _ paid (
                          ok_then (Safe chunk vm) (current_frame (record vm { heap = heap })) _
                            (top-eq (record vm { heap = heap }) f rest e)
                            (ok_then (Safe chunk vm) (copy_arguments f i.c 0 i.imm blank) _ done (
                              refl,
                              refl,
                              λ runs.
                                  pushed-IsWellFormed g i.a f filled rest heap size bytes w e
                                    (ltb→lt _ _ deep) to sized.suffices fits
                                    (same.registers ∙ width) (same.histories ∙ height)
                                    same.return_ip same.return_register same.allocation,
                            )))
                  ]))))

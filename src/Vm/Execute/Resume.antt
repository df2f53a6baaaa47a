-- ===== src/Vm/Execute/Resume.antt =====
-- RETURN of vm/rust/lana-vm/src/vm.rs.
use lana.Prelude.{
  length-set, ℕ, ◌+◌, ◌<◌, ◌≤◌, List, [], ◌∷◌, length, get_elem?, get_elem?-some, set, or_panic,
  ◌≡◌, panic, refl, arith, subst, sym, ap, ◌∙◌, ◌>>=◌,
}
use lana.Bytecode.Chunk.{Instruction, Chunk}
use lana.Heap.Balance.{Fits-held, release-Fits}
use lana.Vm.Values.{Value}
use lana.Vm.Machine.{Frame, Vm, Run, store}
use lana.Vm.Stack.{Stack, held, IsWellFormed, Safe, Stack-SameShape}
use lana.Vm.Execute.{resume, return}
use lana.Vm.Execute.Registers.{store-set}
use lana.Vm.Execute.Chain.{or_panic_then, ok_then}

module _ (chunk : Chunk) (vm : Vm) where
  -- RETURN gives the frame's bytes back, and its result to the caller.
  pub resume-Safe :
      (ip : ℕ) (returned : Value) (f : Frame) (rest : List Frame)
      → IsWellFormed chunk (record vm { ip = ip })
      → vm.frames ≡ f ∷ rest
      → Safe chunk vm (resume vm returned f rest)
  unfolding resume
  resume-Safe ip returned f [] w e = (refl, refl, λ runs. absurd cc)
  resume-Safe ip returned f (c ∷ rest) w e =
      let stack = subst (Stack chunk ip) e w.stack in
      let swap : f.allocation + (c.allocation + held rest)
          ≡ c.allocation + held rest + f.allocation =
        omega arith in
      ok_then (Safe chunk vm) (store c.registers f.return_register returned) _
        (store-set c.registers f.return_register returned stack.1)
        (
          refl,
          refl,
          λ runs. record {
            stack =
                Stack-SameShape chunk f.return_ip c
                  (record c { registers = set c.registers f.return_register returned }) rest
                  (record {
                    registers = length-set c.registers f.return_register returned;
                    histories = refl;
                    return_ip = refl;
                    return_register = refl;
                    allocation = refl;
                  })
                  stack.2;
            outside = w.outside;
            depth = let whole = subst (λ fs. length fs ≤ 64) e w.depth in omega (arith, whole);
            sizes = w.sizes;
            heap =
                release-Fits vm.heap f.allocation (Fits-held vm.heap _ _ (ap held e ∙ swap) w.heap);
          },
        )

  return-eq :
      (i : Instruction) (f : Frame) (rest : List Frame)
      → vm.frames ≡ f ∷ rest
      → return i vm
        ≡ (or_panic (get_elem? f.registers i.a) >>= λ returned. resume vm returned f rest)
  unfolding return
  return-eq i f rest e =
      let outcome : List Frame → Run Vm = λ fs. elim fs [
        | [] ↦ panic
        | frame ∷ tail ↦
            or_panic (get_elem? frame.registers i.a) >>= λ returned. resume vm returned frame tail
      ] in
      ap outcome e

  pub return-Safe :
      (ip : ℕ) (i : Instruction) (f : Frame) (rest : List Frame)
      → IsWellFormed chunk (record vm { ip = ip })
      → vm.frames ≡ f ∷ rest
      → i.a < length f.registers
      → Safe chunk vm (return i vm)
  unfolding return
  return-Safe ip i f rest w e h =
      let (returned, found) = get_elem?-some f.registers i.a h in
      subst (Safe chunk vm) (sym (return-eq i f rest e)) (
        or_panic_then (Safe chunk vm) (get_elem? f.registers i.a) _ found
          (resume-Safe ip returned f rest w e))

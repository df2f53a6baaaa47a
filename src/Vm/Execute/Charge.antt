-- ===== src/Vm/Execute/Charge.antt =====
-- `Frame::charged` of vm/rust/lana-vm/src/vm.rs and the heap.
use lana.Prelude.{
  ℕ, ◌+◌, ◌*◌, ◌-◌, ◌^◌, ltb, ◌≡◌, inl, inr, ok, err, panic, refl, arith, Bool-cases, if_either,
  ◌⊎◌, ◌>>=◌,
}
use lana.Bytecode.Error.{LanaError}
use lana.Heap.State
use lana.Heap.State.{Admitted, charge_kept, charge, resize_to, resize, reserve, release}
use lana.Heap.Balance.{Fits, Fits-held, resize-Fits}
use lana.Vm.Machine.{Frame, Vm, Run, Fault, new_frame, admitted, charged}
use lana.Vm.Stack.{held}

-- The heap admits the bytes, or reports that they do not fit.
abbrev IsAnswer : Admitted → Type 0
IsAnswer (ok _) = Unit
IsAnswer (err code) = code ≡ LanaError.oom
IsAnswer panic = ⊥

charge_kept-IsAnswer : (s : State.State) (bytes : ℕ) → IsAnswer (charge_kept s bytes).1
unfolding charge_kept
charge_kept-IsAnswer s bytes =
    let P : State.State × Admitted → Type 0 = λ r. IsAnswer r.1 in
    if_either P (ltb (s.limit - s.live) bytes) refl tt

resize_to-IsAnswer :
    (held bytes : ℕ) (s : State.State) (answer : Admitted)
    → IsAnswer answer
    → IsAnswer (resize_to held bytes (s, answer)).2
unfolding resize_to
resize_to-IsAnswer held bytes s (ok _) h = tt
resize_to-IsAnswer held bytes s (err _) h = h
resize_to-IsAnswer held bytes s panic h = h

reserve-IsAnswer : (s : State.State) (bytes : ℕ) → IsAnswer (reserve s bytes).2
unfolding reserve resize charge
reserve-IsAnswer s bytes =
    let P : State.State × ℕ × Admitted → Type 0 = λ r. IsAnswer r.2 in
    if_either P (ltb 0 bytes) (resize_to-IsAnswer 0 bytes _ _ (charge_kept-IsAnswer _ (bytes - 0)))
      tt

-- A new frame is charged to the heap, or the call fails.
abbrev pub Charged : Vm → ℕ → ℕ → Run (Vm × Frame) → Type 0
Charged vm size rest outcome =
    ((f : Fault) × (outcome ≡ err f)
      × (f.code ≡ LanaError.oom)
      × (f.machine.frames ≡ vm.frames)
      × (f.machine.ip ≡ vm.ip))
    ⊎ ((heap : State.State) × (bytes : ℕ) × (outcome
          ≡ ok (record vm { heap = heap }, record (new_frame size) { allocation = bytes }))
        × Fits heap (rest + bytes))

pub charged-Charged :
    (slot size rest : ℕ) (vm : Vm) → Fits vm.heap rest → Charged vm size rest (charged slot vm size)
unfolding charged reserve admitted
charged-Charged slot size rest vm fits = elim (Bool-cases (ltb (size * slot) (2 ^ 64))) [
  | inr over ↦ rw over (inl (_, refl, refl, refl, refl))
  | inl small ↦ rw small (
      go (reserve vm.heap (size * slot)) (reserve-IsAnswer vm.heap (size * slot))
        (resize-Fits vm.heap 0 (size * slot) rest (Fits-held vm.heap _ _ (omega arith) fits)))
]
  where
    go :
        (r : State.State × ℕ × Admitted)
        → IsAnswer r.2
        → Fits r.0 (rest + r.1)
        → Charged vm size rest (do
          (vm₁, held) ← admitted vm r
          ok (vm₁, record (new_frame size) { allocation = held }))
    go (heap, bytes, ok _) ne h = inr (heap, bytes, refl, h)
    go (heap, bytes, err code) ne h = inl (_, refl, ne, refl, refl)
    go (heap, bytes, panic) ne h = absurd ne

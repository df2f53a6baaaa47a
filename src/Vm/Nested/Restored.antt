-- ===== src/Vm/Nested/Restored.antt =====
-- What a nested run of vm/rust/lana-vm/src/vm.rs leaves behind.
use lana.Prelude.{ℕ, true, false, List, ◌∷◌, set, Option, some, none, ◌≡◌, ◌⊎◌, ok, err, panic}
use lana.Bytecode.Chunk.{Chunk}
use lana.Vm.Values.{Value}
use lana.Vm.Machine.{Frame, Vm, Run}
use lana.Vm.Execute.Balance.{Above, Returned}
use lana.Vm.Nested.Enter.{Unmoved}
use lana.Vm.Nested.Turns.{Left}

module _ (base : List Frame) (ip register : ℕ) where
  -- The loop has ended: back on the base, or with the machine stopped above it, or given up.
  abbrev Looped : Option (Run Vm) → Type 0
  Looped (some (ok after)) =
      ((after.running ≡ false) × Above base ip register after.frames)
      ⊎ Returned base ip register after
  Looped (some (err f)) = Left base ip register f.machine
  Looped (some panic) = ⊥
  Looped none = ⊥

-- A nested run that ends on a running machine has left the frames of its caller as they were but
-- for the register of the result, and the ip where it was; one that fails has left all frames and
-- the ip as they were.
unfoldable pub Restored : Vm → ℕ → Option (Run (Value × Vm)) → Type 0
Restored vm scratch (some (ok (value, after))) =
    after.running ≡ true
    → (f : Frame) × (rest : List Frame) × (vm.frames ≡ f ∷ rest)
      × (after.frames ≡ record f { registers = set f.registers scratch value } ∷ rest)
      × (after.ip ≡ vm.ip)
Restored vm scratch (some (err f)) = Unmoved vm f.machine
Restored vm scratch (some panic) = ⊥
Restored vm scratch none = ⊥

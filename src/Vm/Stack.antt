-- ===== src/Vm/Stack.antt =====
-- The invariant of the machine of vm/rust/lana-vm/src/vm.rs.
use lana.Prelude.{
  ℕ, ◌+◌, ◌<◌, ◌≤◌, true, List, [], ◌∷◌, length, ◌≡◌, ok, err, panic, refl, subst, sym, ap, ◌∙◌,
}
use lana.Bytecode.Chunk.{Chunk}
use lana.Bytecode.Objects.Regions.{Flow}
use lana.Heap.Balance.{Fits}
use lana.Vm.Outcome.{Outcome}
use lana.Vm.Frames.Regions.{Suffices}
use lana.Vm.Frames.Rooms.{Complete}
use lana.Vm.Frames.Named.{Suffices-Flow}
use lana.Vm.Machine.{Frame, Vm, Run, Fault}

-- A frame in which control is at `ip`.
pub record Holds (chunk : Chunk) (frame : Frame) (ip : ℕ) : Type 0 where
  pub histories : length frame.histories ≡ length frame.registers
  pub suffices : Suffices chunk (length frame.registers) ip

-- Every frame has the registers that the code can use where control is, or will return to, and the
-- register for its result.
abbrev pub Stack : Chunk → ℕ → List Frame → Type 0
Stack chunk ip [] = ⊥
Stack chunk ip (f ∷ []) = Holds chunk f ip
Stack chunk ip (f ∷ g ∷ rest) =
    Holds chunk f ip × (f.return_register < length g.registers) × Stack chunk f.return_ip (g ∷ rest)

-- The bytes that the frames hold.
abbrev pub held : List Frame → ℕ
held [] = 0
held (f ∷ rest) = f.allocation + held rest

-- The frames are in order, as many as there may be, their sizes are those computed, the books of the
-- heap balance, and no callback of a dataset plan is running.
pub record IsWellFormed (chunk : Chunk) (vm : Vm) : Type 0 where
  pub stack : Stack chunk vm.ip vm.frames
  pub depth : length vm.frames ≤ 64
  pub sizes : Complete chunk vm.max_registers
  pub heap : Fits vm.heap (held vm.frames)
  pub outside : vm.pure_callback_depth ≡ 0

-- A failure with a known code, which leaves the frames alone.
abbrev pub Failed : Vm → Fault → Type 0
Failed before f = Outcome f.code × (f.machine.frames ≡ before.frames)

-- What an instruction may do to `before`: it does not panic, leaves the counter of instructions
-- and its limit alone, and leaves a machine that runs on well formed, or fails in one of these ways.
abbrev pub Safe : Chunk → Vm → Run Vm → Type 0
Safe chunk before (ok vm) =
    (vm.instruction_count ≡ before.instruction_count)
    × (vm.instruction_limit ≡ before.instruction_limit)
    × (vm.running ≡ true → IsWellFormed chunk vm)
Safe chunk before (err f) = Failed before f
Safe chunk before panic = ⊥

-- A frame in the place of another.
pub record SameShape (f g : Frame) : Type 0 where
  pub registers : length g.registers ≡ length f.registers
  pub histories : length g.histories ≡ length f.histories
  pub return_ip : g.return_ip ≡ f.return_ip
  pub return_register : g.return_register ≡ f.return_register
  pub allocation : g.allocation ≡ f.allocation

pub Stack-Flow :
    (chunk : Chunk) (fs : List Frame) {ip ip' : ℕ}
    → Flow chunk ip ip'
    → Stack chunk ip fs
    → Stack chunk ip' fs
Stack-Flow chunk [] flow h = h
Stack-Flow chunk (f ∷ []) flow h = record {
  histories = h.histories;
  suffices = Suffices-Flow chunk _ flow h.suffices;
}
Stack-Flow chunk (f ∷ g ∷ rest) flow (h, slot, more) = (
  record { histories = h.histories; suffices = Suffices-Flow chunk _ flow h.suffices },
  slot,
  more,
)

-- The current frame.
pub Stack-top :
    (chunk : Chunk) (ip : ℕ) (fs : List Frame)
    → Stack chunk ip fs
    → (f : Frame) × (rest : List Frame) × (fs ≡ f ∷ rest) × Holds chunk f ip
Stack-top chunk ip [] h = absurd h
Stack-top chunk ip (f ∷ []) h = (f, [], refl, h)
Stack-top chunk ip (f ∷ g ∷ rest) h = (f, g ∷ rest, refl, h.0)

Holds-SameShape :
    (chunk : Chunk) (ip : ℕ) (f g : Frame) → SameShape f g → Holds chunk f ip → Holds chunk g ip
Holds-SameShape chunk ip f g same h = record {
  histories = same.histories ∙ h.histories ∙ sym same.registers;
  suffices = subst (λ n. Suffices chunk n ip) (sym same.registers) h.suffices;
}

pub Stack-SameShape :
    (chunk : Chunk) (ip : ℕ) (f g : Frame) (rest : List Frame)
    → SameShape f g
    → Stack chunk ip (f ∷ rest)
    → Stack chunk ip (g ∷ rest)
Stack-SameShape chunk ip f g [] same h = Holds-SameShape chunk ip f g same h
Stack-SameShape chunk ip f g (c ∷ rest) same (h, slot, more) = (
  Holds-SameShape chunk ip f g same h,
  subst (λ r. r < length c.registers) (sym same.return_register) slot,
  subst (λ at. Stack chunk at (c ∷ rest)) (sym same.return_ip) more,
)

-- A change of the current frame that keeps its shape keeps the machine well formed.
pub replace-IsWellFormed :
    (chunk : Chunk) (vm : Vm) (f g : Frame) (rest : List Frame)
    → vm.frames ≡ f ∷ rest
    → SameShape f g
    → IsWellFormed chunk vm
    → IsWellFormed chunk (record vm { frames = g ∷ rest })
replace-IsWellFormed chunk vm f g rest e same w = record {
  stack = Stack-SameShape chunk vm.ip f g rest same (subst (Stack chunk vm.ip) e w.stack);
  depth = subst (λ fs. length fs ≤ 64) e w.depth;
  outside = w.outside;
  sizes = w.sizes;
  heap = subst (Fits vm.heap) (ap held e ∙ ap (λ n. n + held rest) (sym same.allocation)) w.heap;
}

-- ===== src/Vm/Frames/Named.antt =====
-- The sizes of `compute_max_registers` of vm/rust/lana-vm/src/vm.rs against what the verifier of
-- vm/rust/lana-bytecode/src/verifier.rs lets an instruction name.
use lana.Prelude.{
  ℕ, ◌≤◌, true, List, get_elem?, some, All, All-get, ◌≡◌, inl, inr, ok, length, arith,
}
use native.Mathlib.Decide.{ℕ_discrete}
use lana.Bytecode.Float.{F64}
use lana.Bytecode.Chunk.{Instruction, Function, Chunk}
use lana.Bytecode.Check.Operands.{Accepts}
use lana.Bytecode.Objects.Descriptor.{Serde}
use lana.Bytecode.Objects.Regions.{Flow}
use lana.Bytecode.Verifier.{verify}
use lana.Bytecode.Verifier.Containment.{Reach, here, step, verify-Declared}
use lana.Bytecode.Verifier.Verified.{InstructionFits, verify-Verified}
use lana.Vm.Registers.Operands.{
  Below, Contains, accepted-Below, Declared-Contains, introduced-Contains,
}
use lana.Vm.Frames.{suspends, compute_max_registers}
use lana.Vm.Frames.Regions.{Suffices, Sized}
use lana.Vm.Frames.Rooms.{HasRoom, compute_max_registers-Complete}

pub Suffices-Flow :
    (chunk : Chunk) (n : ℕ) {ip ip' : ℕ}
    → Flow chunk ip ip'
    → Suffices chunk n ip
    → Suffices chunk n ip'
unfolding Suffices
Suffices-Flow chunk n flow (inl most) = inl most
Suffices-Flow chunk n flow (inr (start, end, c, lo, hi)) =
    let (lo', hi') = c.closed _ _ flow lo hi in inr (start, end, c, lo', hi')

pub Suffices-Below :
    (fl : F64) (chunk : Chunk) (n ip : ℕ) (i : Instruction)
    → get_elem? chunk.code ip ≡ some i
    → Accepts fl i.opcode chunk i
    → Suffices chunk n ip
    → Below i.opcode i n
unfolding Suffices
Suffices-Below fl chunk n ip i e accepts (inl most) =
    accepted-Below fl chunk i n accepts (omega arith)
Suffices-Below fl chunk n ip i e accepts (inr (start, end, c, lo, hi)) =
    accepted-Below fl chunk i n accepts (c.counted ip i e lo hi)

Suffices-Reach :
    (chunk : Chunk) (n start : ℕ) {ip : ℕ}
    → Reach chunk start ip
    → Suffices chunk n start
    → Suffices chunk n ip
Suffices-Reach chunk n start here h = h
Suffices-Reach chunk n start (step r flow) h =
    Suffices-Flow chunk n flow (Suffices-Reach chunk n start r h)

module _ (fl : F64) (sd : Serde) (chunk : Chunk) where
  reached-Contains :
      verify fl sd chunk ≡ ok tt
      → (k : ℕ) (f : Function) (n : ℕ) → get_elem? chunk.functions k ≡ some f
      → Sized chunk f n
      → (ip : ℕ) (i : Instruction) → Reach chunk f.entry ip
      → get_elem? chunk.code ip ≡ some i
      → Contains i.opcode i n
  reached-Contains h k f n found sized ip i reach at_ip =
      let v = (verify-Verified fl sd chunk).0 h in
      let fits = All-get (InstructionFits fl chunk) chunk.code ip v.code at_ip in
      let below =
        Suffices-Below fl chunk n ip i at_ip fits.accepts
          (Suffices-Reach chunk n f.entry reach sized.suffices) in
      elim (ℕ_discrete chunk.version 6) [
        | yes six ↦
            Declared-Contains i.opcode i f.register_count below
              (verify-Declared fl sd chunk h six k f found ip i reach at_ip) (sized.declared six)
        | no older ↦
            introduced-Contains i.opcode i below (omega (arith, fits.known, v.version.1, older))
      ]

  -- For a chunk that the verifier accepts, `compute_max_registers` gives every function a size of
  -- at most 256: it holds the arguments, in version 6 the registers that the function declares, and
  -- every register and run of registers that is named by an instruction to which control can go
  -- from the function's entry, object opcodes included. The function that a GENERATOR or ASYNC instruction names has room for its arguments and one
  -- register more, up to 256.
  pub compute_max_registers-Below :
      verify fl sd chunk ≡ ok tt
      → (sizes : List ℕ) × (compute_max_registers chunk ≡ ok sizes)
        × (length sizes ≡ length chunk.functions)
        × ((k : ℕ) (f : Function)
            → get_elem? chunk.functions k ≡ some f
            → (n : ℕ) × (get_elem? sizes k ≡ some n)
              × (f.arity ≤ n)
              × (n ≤ 256)
              × (chunk.version ≡ 6 → f.register_count ≤ n)
              × ((ip : ℕ) (i : Instruction)
                  → Reach chunk f.entry ip
                  → get_elem? chunk.code ip ≡ some i
                  → Contains i.opcode i n))
        × All (λ i. suspends i.opcode ≡ true → HasRoom chunk sizes i) chunk.code
  compute_max_registers-Below h =
      let (sizes, computed, c, roomy) = compute_max_registers-Complete fl chunk sd h in
      let v = (verify-Verified fl sd chunk).0 h in
      (
        sizes,
        computed,
        c.whole,
        λ k f found.
            let (n, at_k, sized) = c.placed k f found in
            (
              n,
              at_k,
              sized.arguments,
              sized.limit,
              sized.declared,
              λ ip i reach at_ip. reached-Contains h k f n found sized ip i reach at_ip,
            ),
        roomy,
      )

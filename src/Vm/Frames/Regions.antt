-- ===== src/Vm/Frames/Regions.antt =====
-- What `compute_max_registers` of vm/rust/lana-vm/src/vm.rs gives one function.
use lana.Prelude.{
  ℕ, ◌+◌, ◌-◌, ◌<◌, ◌≤◌, false, List, length, get_elem?, some, min, ◌≡◌, ◌⊎◌, inl, inr, arith, ap,
  ◌∙◌, Bool-cases, ◌==◌,
}
use lana.Bytecode.Chunk.{Instruction, Function, Chunk}
use lana.Bytecode.Objects.Regions.{next, target, IsClosed, goes_on, Branches-target}
use lana.Vm.Registers.{instruction_max_register}
use lana.Vm.Frames.{falls_through, some_leaves, escapes, code_max, needed, frame_size}
use lana.Vm.Frames.Scan.{
  region, get_elem?-region, length-region, falls_through-last, falls_through-length,
  some_leaves-none, code_max-lem,
}

-- The range of the code is closed under the flow of control, and a register file of `n` registers
-- ends past the registers counted for its instructions.
pub record Covers (chunk : Chunk) (n start end : ℕ) : Type 0 where
  pub closed : IsClosed chunk start end
  pub counted :
      (ip : ℕ) (i : Instruction)
      → get_elem? chunk.code ip ≡ some i
      → start ≤ ip
      → ip < end
      → min (instruction_max_register i + 1) 256 ≤ n

-- A register file of `n` registers is enough wherever control goes from `ip`, within a call.
unfoldable pub Suffices : Chunk → ℕ → ℕ → Type 0
Suffices chunk n ip =
    (256 ≤ n) ⊎ ((start end : ℕ) × Covers chunk n start end × (start ≤ ip) × (ip < end))

module _ (chunk : Chunk) (start end : ℕ) (fits : end ≤ length chunk.code) where
  abbrev body : List Instruction
  body = region chunk.code start end

  in_body :
      (ip : ℕ) (i : Instruction)
      → get_elem? chunk.code ip ≡ some i
      → start ≤ ip
      → ip < end
      → get_elem? body (ip - start) ≡ some i
  in_body ip i e lo hi =
      get_elem?-region chunk.code start end (ip - start) (omega arith)
      ∙ ap (get_elem? chunk.code) (omega arith)
      ∙ e

  body-IsClosed :
      falls_through body ≡ false → some_leaves start end body ≡ false → IsClosed chunk start end
  body-IsClosed ends inside ip _ (next i e r h j) lo hi =
      let more =
        falls_through-last body (ip - start) i ends (in_body ip i e lo hi)
          (goes_on i.opcode r h j) in
      omega (arith, more, length-region chunk.code start end fits)
  body-IsClosed ends inside ip _ (target i e t) lo hi =
      let stays = some_leaves-none start end body (ip - start) i inside (in_body ip i e lo hi) in
      let jumps = Branches-target i.opcode t in ground (arith, stays, jumps)

-- The size of the register file of a function: it holds the arguments and all that the function's
-- code can use, and in version 6 the registers that the function declares.
pub record Sized (chunk : Chunk) (f : Function) (n : ℕ) : Type 0 where
  pub arguments : f.arity ≤ n
  pub limit : n ≤ 256
  pub suffices : Suffices chunk n f.entry
  pub declared : chunk.version ≡ 6 → f.register_count ≤ n

module _ (chunk : Chunk) (f : Function) (end : ℕ) (fits : end ≤ length chunk.code)
    (after : f.entry ≤ end) (counted : f.register_count ≤ 256)
    (arity : f.arity ≤ f.register_count) where
  abbrev code : List Instruction
  code = region chunk.code f.entry end

  contained :
      (n : ℕ)
      → escapes f.entry end code ≡ false
      → min (code_max 0 code + 1) 256 ≤ n
      → Suffices chunk n f.entry
  unfolding escapes Suffices
  contained n stays le =
      let ends : falls_through code ≡ false = ground arith in
      let inside : some_leaves f.entry end code ≡ false = ground arith in
      inr (
        f.entry,
        end,
        record {
          closed = body-IsClosed chunk f.entry end fits ends inside;
          counted = λ ip i e lo hi.
              let at_ip = in_body chunk f.entry end fits ip i e lo hi in
              omega (arith, code_max-lem 0 code (ip - f.entry) i at_ip);
        },
        omega arith,
        omega (arith, falls_through-length code ends, length-region chunk.code f.entry end fits),
      )

  pub frame_size-Sized : Sized chunk f (frame_size chunk f end code)
  unfolding frame_size needed Suffices
  frame_size-Sized = elim (Bool-cases (escapes f.entry end code)) [
    | inl out ↦ rw out (record {
      arguments = omega arith;
      limit = omega arith;
      suffices = inl (omega arith);
      declared = λ six. omega arith;
    })
    | inr stays ↦ elim (Bool-cases (chunk.version == 6)) [
      | inl six ↦
          rw (stays, six)
            (record {
              arguments = omega arith;
              limit = omega arith;
              suffices = contained _ stays (omega arith);
              declared = λ six. omega arith;
            })
      | inr older ↦
          rw (stays, older)
            (record {
              arguments = omega arith;
              limit = omega arith;
              suffices = contained _ stays (omega arith);
              declared = λ six. ground arith;
            })
    ]
  ]

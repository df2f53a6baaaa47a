-- ===== src/Bytecode/Verifier/Verified.antt =====
-- What `verify` of vm/rust/lana-bytecode/src/verifier.rs is compared with.
use lana.Prelude.{ℕ, suc, ◌<◌, ◌≤◌, true, List, [], ◌∷◌, All, ◌≡◌, ◌≢◌, ◌↔◌, refl, ok, panic, arith}
use lana.Bytecode.Opcode.{OpCode, discriminant, version_known}
use lana.Bytecode.Float.{F64}
use lana.Bytecode.Chunk.{Instruction, Function, Chunk}
use lana.Bytecode.Check.Arms.{count_u32}
use lana.Bytecode.Check.Operands.{Accepts}
use lana.Bytecode.Check.Meets.{verify_instruction-Accepts, verify_instruction-ne-panic}
use lana.Bytecode.Objects
use lana.Bytecode.Objects.Descriptor.{Serde}
use lana.Bytecode.Verifier.{max_opcode_for_version, verify_functions, verify_code, verify}

-- The metadata of a function fits the code and the register file.
pub record FunctionFits (chunk : Chunk) (f : Function) : Type 0 where
  pub entry : f.entry < count_u32 chunk.code
  pub register_count : f.register_count ≤ 256
  pub arity : f.arity ≤ f.register_count

-- The version of the bytecode that brought an opcode in: generators came with 3, futures with 4,
-- and the object opcodes with 6. No version has the last discriminant.
abbrev pub introduced : OpCode → ℕ
introduced OpCode.generator = 3
introduced OpCode.yield = 3
introduced OpCode.next = 3
introduced OpCode.async = 4
introduced OpCode.await = 4
introduced OpCode.run_async = 4
introduced OpCode.distribution_build = 5
introduced OpCode.joint_condition_map = 5
introduced OpCode.observe_map = 5
introduced OpCode.value_new = 6
introduced OpCode.object_new = 6
introduced OpCode.oo_get = 6
introduced OpCode.oo_set = 6
introduced OpCode.oo_call = 6
introduced OpCode.oo_static_call = 6
introduced OpCode.oo_as_interface = 6
introduced OpCode.count = 7
introduced _ = 1

-- The instruction belongs to the version, and every operand is in its range.
pub record InstructionFits (fl : F64) (chunk : Chunk) (i : Instruction) : Type 0 where
  pub known : introduced i.opcode ≤ chunk.version
  pub accepts : Accepts fl i.opcode chunk i

pub record Verified (fl : F64) (sd : Serde) (chunk : Chunk) : Type 0 where
  pub entry : chunk.entry < count_u32 chunk.code
  pub version : (1 ≤ chunk.version) × (chunk.version ≤ 6)
  pub functions : All (FunctionFits chunk) chunk.functions
  pub code : All (InstructionFits fl chunk) chunk.code
  pub objects : chunk.version ≡ 6 → Objects.verify sd chunk ≡ ok tt

pub version_known_iff : (v : ℕ) → (version_known v ≡ true) ↔ ((1 ≤ v) × (v ≤ 6))
unfolding version_known
version_known_iff v = (λ h. ground (arith, h), λ h. ground (arith, h))

-- The opcodes below the limit of a version are those that it or an earlier one brought in.
introduced_sound :
    (op : OpCode) (v : ℕ)
    → (1 ≤ v) × (v ≤ 6)
    → discriminant op < max_opcode_for_version v
    → introduced op ≤ v
unfolding max_opcode_for_version discriminant
introduced_sound op v known h = ground arith

introduced_complete :
    (op : OpCode) (v : ℕ)
    → (1 ≤ v) × (v ≤ 6)
    → introduced op ≤ v
    → discriminant op < max_opcode_for_version v
unfolding max_opcode_for_version discriminant
introduced_complete op v known h = ground arith

functions_sound :
    (chunk : Chunk) (k : ℕ) (fs : List Function)
    → verify_functions chunk k fs ≡ ok tt
    → All (FunctionFits chunk) fs
unfolding verify_functions
functions_sound chunk k [] h = tt
functions_sound chunk k (f ∷ fs) h = ground (arith, functions_sound chunk (suc k) fs)

functions_complete :
    (chunk : Chunk) (k : ℕ) (fs : List Function)
    → All (FunctionFits chunk) fs
    → verify_functions chunk k fs ≡ ok tt
unfolding verify_functions
functions_complete chunk k [] h = refl
functions_complete chunk k (f ∷ fs) h = ground (arith, functions_complete chunk (suc k) fs h.1)

module _ (fl : F64) (chunk : Chunk) where
  code_sound :
      (ip : ℕ) (code : List Instruction)
      → (1 ≤ chunk.version) × (chunk.version ≤ 6)
      → verify_code fl chunk ip code ≡ ok tt
      → All (InstructionFits fl chunk) code
  unfolding verify_code
  code_sound ip [] known h = tt
  code_sound ip (i ∷ code) known h = ground (
    arith,
    introduced_sound i.opcode chunk.version known,
    (verify_instruction-Accepts fl chunk i).0,
    code_sound (suc ip) code known,
  )

  code_complete :
      (ip : ℕ) (code : List Instruction)
      → (1 ≤ chunk.version) × (chunk.version ≤ 6)
      → All (InstructionFits fl chunk) code
      → verify_code fl chunk ip code ≡ ok tt
  unfolding verify_code
  code_complete ip [] known h = refl
  code_complete ip (i ∷ code) known h = ground (
    arith,
    introduced_complete i.opcode chunk.version known h.0.known,
    (verify_instruction-Accepts fl chunk i).1 h.0.accepts,
    code_complete (suc ip) code known h.1,
  )

  code_no_panic : (ip : ℕ) (code : List Instruction) → verify_code fl chunk ip code ≢ panic
  unfolding verify_code
  code_no_panic ip [] h = cc
  code_no_panic ip (i ∷ code) h =
      ground (arith, verify_instruction-ne-panic fl chunk i, code_no_panic (suc ip) code)

module _ (fl : F64) (sd : Serde) (chunk : Chunk) where
  sound : verify fl sd chunk ≡ ok tt → Verified fl sd chunk
  unfolding verify
  sound h =
      let known : version_known chunk.version ≡ true = ground arith in
      let range = (version_known_iff chunk.version).0 known in
      ground
        (arith, functions_sound chunk 0 chunk.functions, code_sound fl chunk 0 chunk.code range)

  complete : Verified fl sd chunk → verify fl sd chunk ≡ ok tt
  unfolding verify
  complete v = ground (
    arith,
    (version_known_iff chunk.version).1 v.version,
    functions_complete chunk 0 chunk.functions v.functions,
    code_complete fl chunk 0 chunk.code v.version v.code,
  )

  pub verify-Verified : (verify fl sd chunk ≡ ok tt) ↔ Verified fl sd chunk
  verify-Verified = (sound, complete)

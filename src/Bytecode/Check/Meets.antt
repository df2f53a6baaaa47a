-- ===== src/Bytecode/Check/Meets.antt =====
-- `verify_instruction` of vm/rust/lana-bytecode/src/verifier.rs against the operand table.
use lana.Prelude.{
  ℕ, ◌<◌, ◌≡◌, ◌≢◌, ◌↔◌, ok, panic, arith, List, Option, some, none, get_elem?, get_elem?-some,
}
use lana.Bytecode.Opcode.{OpCode}
use lana.Bytecode.Float.{F64, state_make_complex}
use lana.Bytecode.Chunk.{Value, Instruction, Chunk, value_type, type_code}
use lana.Bytecode.Check.{verify_arms1, verify_instruction, state_at}
use lana.Bytecode.Check.Arms.{count_u32}
use lana.Bytecode.Check.Operands.{Accepts, MakesState}

-- A checked index has an element.
in_range {ℓ} : {A : Type ℓ} (xs : List A) (k : ℕ) → k < count_u32 xs → get_elem? xs k ≢ none
in_range xs k h e = let (x, found) = get_elem?-some xs k (omega arith) in cc

module _ (fl : F64) where
  state_at_sound : (x y z : Option Value) → state_at fl x y z ≡ ok tt → MakesState fl x y z
  state_at_sound (some (Value.number p)) (some (Value.number q)) (some (Value.number r)) h = h
  state_at_sound _ _ _ h = ground arith

  state_at_complete : (x y z : Option Value) → MakesState fl x y z → state_at fl x y z ≡ ok tt
  state_at_complete (some (Value.number p)) (some (Value.number q)) (some (Value.number r)) h = h
  state_at_complete _ _ _ h = absurd h

  state_make_complex-ne-panic : (p re im : ℕ) → state_make_complex fl p re im ≢ panic
  unfolding state_make_complex
  state_make_complex-ne-panic p re im h = ground arith

  state_at-ne-panic :
      (x y z : Option Value) → x ≢ none → y ≢ none → z ≢ none → state_at fl x y z ≢ panic
  state_at-ne-panic (some (Value.number p)) (some (Value.number q)) (some (Value.number r)) a b c
        h =
      state_make_complex-ne-panic p q r h
  state_at-ne-panic _ _ _ a b c h = ground arith

module _ (fl : F64) (chunk : Chunk) (i : Instruction) where
  sound : (op : OpCode) → verify_arms1 fl op chunk i ≡ ok tt → Accepts fl op chunk i
  unfolding verify_arms1 value_type type_code
  sound OpCode.nop h = ground arith
  sound OpCode.state_new h = ground (
    arith,
    state_at_sound fl (get_elem? chunk.constants i.b) (get_elem? chunk.constants i.c)
        (get_elem? chunk.constants i.imm),
  )
  sound op h = ground arith

  complete : (op : OpCode) → Accepts fl op chunk i → verify_arms1 fl op chunk i ≡ ok tt
  unfolding verify_arms1 value_type type_code
  complete OpCode.nop h = ground arith
  complete OpCode.state_new h = ground (
    arith,
    state_at_complete fl (get_elem? chunk.constants i.b) (get_elem? chunk.constants i.c)
        (get_elem? chunk.constants i.imm) h.extra,
  )
  complete op h = ground arith

  no_panic : (op : OpCode) → verify_arms1 fl op chunk i ≢ panic
  unfolding verify_arms1
  no_panic OpCode.nop h = cc
  no_panic OpCode.state_new h = ground (
    arith,
    state_at-ne-panic fl (get_elem? chunk.constants i.b) (get_elem? chunk.constants i.c)
        (get_elem? chunk.constants i.imm),
    in_range chunk.constants i.b,
    in_range chunk.constants i.c,
    in_range chunk.constants i.imm,
  )
  no_panic op h = ground (
    arith,
    in_range chunk.constants i.b,
    in_range chunk.constants i.c,
    in_range chunk.constants i.imm,
    in_range chunk.functions i.b,
  )

  -- The verifier accepts the operands of an instruction exactly when they meet the rules that the
  -- operand tables give its opcode.
  pub verify_instruction-Accepts :
      (verify_instruction fl chunk i ≡ ok tt) ↔ Accepts fl i.opcode chunk i
  unfolding verify_instruction
  verify_instruction-Accepts = (sound i.opcode, complete i.opcode)

  -- The operand check of an instruction never indexes out of range, whatever its operands are.
  pub verify_instruction-ne-panic : verify_instruction fl chunk i ≢ panic
  unfolding verify_instruction
  verify_instruction-ne-panic = no_panic i.opcode

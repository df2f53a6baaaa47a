-- ===== src/Bytecode/Check.antt =====
-- `verify_instruction` of vm/rust/lana-bytecode/src/verifier.rs: the arms of its `match`, in the
-- order of the source and cut into four runs. The closure `check` of the source skips a check
-- once an error is found, so each arm is a chain that ends at its first error.
pub mod Arms
pub mod Operands
pub mod Meets
use lana.Prelude.{
  ℕ, Bool, not, ◌&&◌, ◌||◌, ltb, leb, ◌==◌, get_elem?, Result, ok, err, ◌>>=◌, ◌>>◌, require,
  or_panic, Option,
}
use lana.Bytecode.Opcode.{OpCode}
use lana.Bytecode.Error.{LanaError}
use lana.Bytecode.Float.{F64, state_make_complex}
use lana.Bytecode.Chunk.{ValueType, Value, Instruction, Chunk}
use Arms.{
  Check, host_count, register_range_valid, check, check2, check3, check_range, check_constant,
  check_type, check_target, check_function, check_zero,
}

abbrev transform_neutralize : ℕ
transform_neutralize = 1

abbrev measure_sample : ℕ
measure_sample = 2

abbrev measure_basis_y : ℕ
measure_basis_y = 2

-- `if c != 0 || imm != 0 { Format }`
abbrev check_unused : ℕ → ℕ → Check
check_unused c imm = require (c == 0 && imm == 0) LanaError.format

-- The tail of the `StateNew` arm: the constants are numbers that make a state.
abbrev state_of : F64 → Value → Value → Value → Check
state_of fl (Value.number p) (Value.number d_re) (Value.number d_im) =
    state_make_complex fl p d_re d_im
state_of fl _ _ _ = err LanaError.type

abbrev state_at : F64 → Option Value → Option Value → Option Value → Check
state_at fl at_b at_c at_imm = do
  p ← or_panic at_b
  d_re ← or_panic at_c
  d_im ← or_panic at_imm
  state_of fl p d_re d_im

check_state : F64 → Chunk → ℕ → ℕ → ℕ → Check
check_state fl chunk b c imm =
    state_at fl (get_elem? chunk.constants b) (get_elem? chunk.constants c)
      (get_elem? chunk.constants imm)

-- `imm != chunk.functions[b].arity`
check_arity : Chunk → ℕ → ℕ → Check
check_arity chunk b imm = do
  f ← or_panic (get_elem? chunk.functions b)
  require (imm == f.arity) LanaError.type

module _ (fl : F64) where
  verify_arms4 : OpCode → Chunk → Instruction → Check
  unfolding check check2 check3 check_range check_constant check_type check_target check_function
      check_zero register_range_valid check_state check_arity
  verify_arms4 OpCode.jump chunk i = check_target chunk i.imm
  verify_arms4 OpCode.jump_if_true chunk i = do check i.a; check_target chunk i.imm
  verify_arms4 OpCode.jump_if_false chunk i = do check i.a; check_target chunk i.imm
  verify_arms4 OpCode.move chunk i = check2 i.a i.b
  verify_arms4 OpCode.previous chunk i = check2 i.a i.b
  verify_arms4 OpCode.change chunk i = check2 i.a i.b
  verify_arms4 OpCode.velocity chunk i = check2 i.a i.b
  verify_arms4 OpCode.return chunk i = check i.a
  verify_arms4 OpCode.array_get chunk i = check3 i.a i.b i.c
  verify_arms4 OpCode.array_set chunk i = check3 i.a i.b i.c
  verify_arms4 OpCode.get_field chunk i = check2 i.a i.b
  verify_arms4 OpCode.get_index chunk i = check2 i.a i.b
  verify_arms4 OpCode.history_config chunk i = check2 i.a i.b
  verify_arms4 OpCode.set_index chunk i = check3 i.a i.b i.c
  verify_arms4 OpCode.binary chunk i = check3 i.a i.b i.c
  verify_arms4 OpCode.compare chunk i = check3 i.a i.b i.c
  verify_arms4 OpCode.unary chunk i = check2 i.a i.b
  verify_arms4 OpCode.print chunk i = check i.a
  verify_arms4 OpCode.array_new chunk i = do check i.a; check_range i.b i.c
  verify_arms4 OpCode.call chunk i = do check i.a; check_function chunk i.b; check_range i.c i.imm
  verify_arms4 OpCode.fork chunk i = do
    check i.a
    check_function chunk i.b
    check_range i.c i.imm
    check_arity chunk i.b i.imm
  verify_arms4 OpCode.join chunk i = check2 i.a i.b
  verify_arms4 OpCode.join_all chunk i = check2 i.a i.b
  verify_arms4 OpCode.join_timeout chunk i = check3 i.a i.b i.c
  verify_arms4 OpCode.cancel chunk i = check i.a
  verify_arms4 OpCode.host_call chunk i = do
    check i.a
    require (ltb i.b host_count) LanaError.format
    check_range i.c i.imm
  verify_arms4 OpCode.value_new chunk i = ok tt
  verify_arms4 OpCode.object_new chunk i = ok tt
  verify_arms4 OpCode.oo_get chunk i = ok tt
  verify_arms4 OpCode.oo_set chunk i = ok tt
  verify_arms4 OpCode.oo_call chunk i = ok tt
  verify_arms4 OpCode.oo_static_call chunk i = ok tt
  verify_arms4 OpCode.oo_as_interface chunk i = ok tt
  verify_arms4 OpCode.count chunk i = err LanaError.opcode
  -- The opcodes of the other runs do not come here.
  verify_arms4 _ chunk i = err LanaError.opcode

  verify_arms3 : OpCode → Chunk → Instruction → Check
  unfolding check check2 check3 check_range check_constant check_type check_target check_function
      check_zero register_range_valid check_state check_arity verify_arms4
  verify_arms3 OpCode.joint_build chunk i = do
    check2 i.a i.b
    require (not (i.c == 0 || not (register_range_valid i.b i.c))) LanaError.register
    check_constant chunk i.imm
    check_type chunk i.imm ValueType.string
  verify_arms3 OpCode.joint_project chunk i = do
    check2 i.a i.b
    check_constant chunk i.c
    check_type chunk i.c ValueType.string
  verify_arms3 OpCode.joint_condition chunk i = do
    check3 i.a i.b i.imm
    check_constant chunk i.c
    check_type chunk i.c ValueType.string
  verify_arms3 OpCode.joint_condition_map chunk i = do check3 i.a i.b i.c; check_zero i.imm
  verify_arms3 OpCode.observe_map chunk i = do check3 i.a i.b i.c; check_zero i.imm
  verify_arms3 OpCode.joint_sample chunk i = do check2 i.a i.b; check_unused i.c i.imm
  verify_arms3 OpCode.resolve chunk i = do check2 i.a i.b; check_unused i.c i.imm
  verify_arms3 OpCode.joint_build_finite chunk i = do
    check2 i.a i.b
    check_constant chunk i.c
    check_type chunk i.c ValueType.string
    check_zero i.imm
  verify_arms3 OpCode.joint_rename chunk i = do
    check2 i.a i.b
    check_constant chunk i.c
    check_constant chunk i.imm
    check_type chunk i.c ValueType.string
    check_type chunk i.imm ValueType.string
  verify_arms3 OpCode.possibility_build chunk i = do check2 i.a i.b; check_unused i.c i.imm
  verify_arms3 OpCode.distribution_build chunk i = do check2 i.a i.b; check_unused i.c i.imm
  verify_arms3 OpCode.info_sample chunk i = do check2 i.a i.b; check_unused i.c i.imm
  verify_arms3 OpCode.path_split chunk i = do
    check i.a
    check_target chunk i.imm
    check_unused i.b i.c
  verify_arms3 OpCode.path_join chunk i =
      require (i.a == 0 && (i.b == 0 && (i.c == 0 && i.imm == 0))) LanaError.format
  verify_arms3 OpCode.observe chunk i = do
    check3 i.a i.b i.imm
    check_constant chunk i.c
    check_type chunk i.c ValueType.string
  verify_arms3 OpCode.evidence chunk i = do
    check2 i.a i.b
    check_constant chunk i.c
    check_type chunk i.c ValueType.string
    check_zero i.imm
  verify_arms3 OpCode.assume chunk i = do
    check2 i.a i.b
    check_constant chunk i.c
    check_type chunk i.c ValueType.string
    check_zero i.imm
  verify_arms3 OpCode.derivation chunk i = do check2 i.a i.b; check_unused i.c i.imm
  verify_arms3 OpCode.explain chunk i = do check2 i.a i.b; check_unused i.c i.imm
  verify_arms3 op chunk i = verify_arms4 op chunk i

  verify_arms2 : OpCode → Chunk → Instruction → Check
  unfolding check check2 check3 check_range check_constant check_type check_target check_function
      check_zero register_range_valid check_state check_arity verify_arms3
  verify_arms2 OpCode.adt_build chunk i = do
    check i.a
    check_range i.b i.c
    check_constant chunk i.imm
    check_type chunk i.imm ValueType.number
  verify_arms2 OpCode.adt_case chunk i = do
    check i.a
    check_constant chunk i.b
    check_type chunk i.b ValueType.number
    check_target chunk i.imm
  verify_arms2 OpCode.adt_get chunk i = check2 i.a i.b
  verify_arms2 OpCode.lazy chunk i = do
    check i.a
    check_function chunk i.b
    check i.c
    check_zero i.imm
  verify_arms2 OpCode.force chunk i = do check3 i.a i.b i.c; check_zero i.imm
  verify_arms2 OpCode.bootstrap chunk i = do check i.a; check_function chunk i.b; check2 i.c i.imm
  verify_arms2 OpCode.generator chunk i = do
    check i.a
    check_function chunk i.b
    check_range i.c i.imm
  verify_arms2 OpCode.yield chunk i = check2 i.a i.b
  verify_arms2 OpCode.next chunk i = check2 i.a i.b
  verify_arms2 OpCode.async chunk i = do check i.a; check_function chunk i.b; check_range i.c i.imm
  verify_arms2 OpCode.await chunk i = check2 i.a i.b
  verify_arms2 OpCode.run_async chunk i = check2 i.a i.b
  verify_arms2 OpCode.load_function chunk i = do
    check i.a
    check_function chunk i.b
    check_zero i.c
    check_zero i.imm
  verify_arms2 OpCode.sample_state_dist chunk i = do check2 i.a i.b; check_unused i.c i.imm
  verify_arms2 OpCode.measure_basis chunk i = do
    check2 i.a i.b
    require (leb i.c measure_basis_y) LanaError.measure
    require (leb i.imm measure_sample) LanaError.measure
  verify_arms2 OpCode.estimate_measure_probability chunk i = do
    check2 i.a i.b
    require (leb i.c measure_basis_y) LanaError.measure
    require (not (i.imm == 0)) LanaError.format
  verify_arms2 OpCode.estimate_measure_distribution chunk i = do
    check2 i.a i.b
    require (leb i.c measure_basis_y) LanaError.measure
    require (not (i.imm == 0)) LanaError.format
  verify_arms2 op chunk i = verify_arms3 op chunk i

  verify_arms1 : OpCode → Chunk → Instruction → Check
  unfolding check check2 check3 check_range check_constant check_type check_target check_function
      check_zero register_range_valid check_state check_arity verify_arms2
  verify_arms1 OpCode.nop chunk i = ok tt
  verify_arms1 OpCode.halt chunk i = ok tt
  verify_arms1 OpCode.taskgroup_enter chunk i = ok tt
  verify_arms1 OpCode.taskgroup_exit chunk i = ok tt
  verify_arms1 OpCode.load_const chunk i = do check i.a; check_constant chunk i.imm
  verify_arms1 OpCode.state_new chunk i = do
    check i.a
    check_constant chunk i.b
    check_constant chunk i.c
    check_constant chunk i.imm
    check_state fl chunk i.b i.c i.imm
  verify_arms1 OpCode.state_build chunk i = do check2 i.a i.b; check2 i.c i.imm
  verify_arms1 OpCode.mix chunk i = do check2 i.a i.b; check2 i.c i.imm
  verify_arms1 OpCode.map chunk i = do
    check2 i.a i.b
    require (leb i.c transform_neutralize) LanaError.transform
    check_zero i.imm
  verify_arms1 OpCode.support chunk i = do
    check2 i.a i.b
    require (not (i.imm == 0)) LanaError.format
    check_zero i.c
  verify_arms1 OpCode.expect chunk i = do check2 i.a i.b; check_zero i.c
  verify_arms1 OpCode.validate chunk i = do check3 i.a i.b i.c; check_zero i.imm
  verify_arms1 OpCode.revision chunk i = do check2 i.a i.b; check_unused i.c i.imm
  verify_arms1 OpCode.transform chunk i = do
    check2 i.a i.b
    require (leb i.c transform_neutralize) LanaError.transform
    check_zero i.imm
  verify_arms1 OpCode.measure chunk i = do
    check2 i.a i.b
    require (leb i.c measure_sample) LanaError.measure
    check_zero i.imm
  verify_arms1 OpCode.append chunk i = do check3 i.a i.b i.c; check_zero i.imm
  verify_arms1 OpCode.attenuate chunk i = do check3 i.a i.b i.c; check_zero i.imm
  verify_arms1 OpCode.trace_distance chunk i = do check3 i.a i.b i.c; check_zero i.imm
  verify_arms1 OpCode.append_redundant chunk i = do check3 i.a i.b i.c; check i.imm
  verify_arms1 OpCode.append_complementary chunk i = do check3 i.a i.b i.c; check i.imm
  verify_arms1 OpCode.append_full_redundancy chunk i = do check3 i.a i.b i.c; check_zero i.imm
  verify_arms1 op chunk i = verify_arms2 op chunk i

  unfoldable pub verify_instruction : Chunk → Instruction → Check
  unfolding verify_arms1
  verify_instruction chunk i = verify_arms1 i.opcode chunk i

-- ===== src/Bytecode/Check/Operands.antt =====
-- The operands of each opcode, read off as data: what the verifier has to establish before the
-- machine may run an instruction.
use lana.Prelude.{ℕ, ◌+◌, ◌≤◌, ◌<◌, ◌≡◌, List, [], ◌∷◌, Option, none, some, get_elem?, All, ok}
use lana.Bytecode.Opcode.{OpCode}
use lana.Bytecode.Float.{F64, state_make_complex}
use lana.Bytecode.Chunk.{ValueType, Value, value_type, Instruction, Function, Chunk}
use lana.Bytecode.Check.Arms.{count_u32}

pub data Slot : Type 0 where
  a b c imm : Slot

abbrev pub operand : Instruction → Slot → ℕ
operand i a = i.a
operand i b = i.b
operand i c = i.c
operand i imm = i.imm

-- Operands that name one register.
abbrev pub register_slots : OpCode → List Slot
register_slots OpCode.load_const = a ∷ []
register_slots OpCode.state_new = a ∷ []
register_slots OpCode.adt_build = a ∷ []
register_slots OpCode.adt_case = a ∷ []
register_slots OpCode.generator = a ∷ []
register_slots OpCode.async = a ∷ []
register_slots OpCode.call = a ∷ []
register_slots OpCode.load_function = a ∷ []
register_slots OpCode.path_split = a ∷ []
register_slots OpCode.jump_if_true = a ∷ []
register_slots OpCode.jump_if_false = a ∷ []
register_slots OpCode.return = a ∷ []
register_slots OpCode.print = a ∷ []
register_slots OpCode.cancel = a ∷ []
register_slots OpCode.array_new = a ∷ []
register_slots OpCode.fork = a ∷ []
register_slots OpCode.host_call = a ∷ []
register_slots OpCode.state_build = a ∷ b ∷ c ∷ imm ∷ []
register_slots OpCode.mix = a ∷ b ∷ c ∷ imm ∷ []
register_slots OpCode.append_redundant = a ∷ b ∷ c ∷ imm ∷ []
register_slots OpCode.append_complementary = a ∷ b ∷ c ∷ imm ∷ []
register_slots OpCode.map = a ∷ b ∷ []
register_slots OpCode.transform = a ∷ b ∷ []
register_slots OpCode.support = a ∷ b ∷ []
register_slots OpCode.expect = a ∷ b ∷ []
register_slots OpCode.revision = a ∷ b ∷ []
register_slots OpCode.sample_state_dist = a ∷ b ∷ []
register_slots OpCode.joint_sample = a ∷ b ∷ []
register_slots OpCode.resolve = a ∷ b ∷ []
register_slots OpCode.possibility_build = a ∷ b ∷ []
register_slots OpCode.distribution_build = a ∷ b ∷ []
register_slots OpCode.info_sample = a ∷ b ∷ []
register_slots OpCode.derivation = a ∷ b ∷ []
register_slots OpCode.explain = a ∷ b ∷ []
register_slots OpCode.measure = a ∷ b ∷ []
register_slots OpCode.adt_get = a ∷ b ∷ []
register_slots OpCode.yield = a ∷ b ∷ []
register_slots OpCode.next = a ∷ b ∷ []
register_slots OpCode.await = a ∷ b ∷ []
register_slots OpCode.run_async = a ∷ b ∷ []
register_slots OpCode.move = a ∷ b ∷ []
register_slots OpCode.previous = a ∷ b ∷ []
register_slots OpCode.change = a ∷ b ∷ []
register_slots OpCode.velocity = a ∷ b ∷ []
register_slots OpCode.get_field = a ∷ b ∷ []
register_slots OpCode.get_index = a ∷ b ∷ []
register_slots OpCode.history_config = a ∷ b ∷ []
register_slots OpCode.unary = a ∷ b ∷ []
register_slots OpCode.join = a ∷ b ∷ []
register_slots OpCode.join_all = a ∷ b ∷ []
register_slots OpCode.measure_basis = a ∷ b ∷ []
register_slots OpCode.estimate_measure_probability = a ∷ b ∷ []
register_slots OpCode.estimate_measure_distribution = a ∷ b ∷ []
register_slots OpCode.joint_build = a ∷ b ∷ []
register_slots OpCode.joint_project = a ∷ b ∷ []
register_slots OpCode.joint_build_finite = a ∷ b ∷ []
register_slots OpCode.evidence = a ∷ b ∷ []
register_slots OpCode.assume = a ∷ b ∷ []
register_slots OpCode.joint_rename = a ∷ b ∷ []
register_slots OpCode.validate = a ∷ b ∷ c ∷ []
register_slots OpCode.append = a ∷ b ∷ c ∷ []
register_slots OpCode.attenuate = a ∷ b ∷ c ∷ []
register_slots OpCode.trace_distance = a ∷ b ∷ c ∷ []
register_slots OpCode.append_full_redundancy = a ∷ b ∷ c ∷ []
register_slots OpCode.force = a ∷ b ∷ c ∷ []
register_slots OpCode.joint_condition_map = a ∷ b ∷ c ∷ []
register_slots OpCode.observe_map = a ∷ b ∷ c ∷ []
register_slots OpCode.array_get = a ∷ b ∷ c ∷ []
register_slots OpCode.array_set = a ∷ b ∷ c ∷ []
register_slots OpCode.set_index = a ∷ b ∷ c ∷ []
register_slots OpCode.binary = a ∷ b ∷ c ∷ []
register_slots OpCode.compare = a ∷ b ∷ c ∷ []
register_slots OpCode.join_timeout = a ∷ b ∷ c ∷ []
register_slots OpCode.lazy = a ∷ c ∷ []
register_slots OpCode.bootstrap = a ∷ c ∷ imm ∷ []
register_slots OpCode.joint_condition = a ∷ b ∷ imm ∷ []
register_slots OpCode.observe = a ∷ b ∷ imm ∷ []
register_slots _ = []

-- The first register of a run, and how many there are.
abbrev pub range_slots : OpCode → List (Slot × Slot)
range_slots OpCode.adt_build = (b, c) ∷ []
range_slots OpCode.joint_build = (b, c) ∷ []
range_slots OpCode.array_new = (b, c) ∷ []
range_slots OpCode.generator = (c, imm) ∷ []
range_slots OpCode.async = (c, imm) ∷ []
range_slots OpCode.call = (c, imm) ∷ []
range_slots OpCode.fork = (c, imm) ∷ []
range_slots OpCode.host_call = (c, imm) ∷ []
range_slots _ = []

-- Operands of the object opcodes that name one register: the result, and the receiver, the value or
-- the packed arguments. `verify_instruction` leaves them to the checks of a chunk of version 6.
abbrev pub object_slots : OpCode → List Slot
object_slots OpCode.value_new = a ∷ []
object_slots OpCode.object_new = a ∷ []
object_slots OpCode.oo_get = a ∷ b ∷ []
object_slots OpCode.oo_set = a ∷ b ∷ []
object_slots OpCode.oo_call = a ∷ b ∷ []
object_slots OpCode.oo_static_call = a ∷ b ∷ []
object_slots OpCode.oo_as_interface = a ∷ b ∷ []
object_slots _ = []

-- The first register of the arguments of an object constructor, and how many there are.
abbrev pub object_ranges : OpCode → List (Slot × Slot)
object_ranges OpCode.value_new = (b, imm) ∷ []
object_ranges OpCode.object_new = (b, imm) ∷ []
object_ranges _ = []

-- Operands that name a constant of any type.
abbrev pub constant_slots : OpCode → List Slot
constant_slots OpCode.load_const = imm ∷ []
constant_slots OpCode.state_new = b ∷ c ∷ imm ∷ []
constant_slots _ = []

-- Operands that name a constant of one type.
abbrev pub typed_slots : OpCode → List (Slot × ValueType)
typed_slots OpCode.adt_build = (imm, ValueType.number) ∷ []
typed_slots OpCode.adt_case = (b, ValueType.number) ∷ []
typed_slots OpCode.joint_build = (imm, ValueType.string) ∷ []
typed_slots OpCode.joint_project = (c, ValueType.string) ∷ []
typed_slots OpCode.joint_condition = (c, ValueType.string) ∷ []
typed_slots OpCode.observe = (c, ValueType.string) ∷ []
typed_slots OpCode.joint_build_finite = (c, ValueType.string) ∷ []
typed_slots OpCode.evidence = (c, ValueType.string) ∷ []
typed_slots OpCode.assume = (c, ValueType.string) ∷ []
typed_slots OpCode.joint_rename = (c, ValueType.string) ∷ (imm, ValueType.string) ∷ []
typed_slots _ = []

-- Operands that name a function.
abbrev pub function_slots : OpCode → List Slot
function_slots OpCode.lazy = b ∷ []
function_slots OpCode.bootstrap = b ∷ []
function_slots OpCode.generator = b ∷ []
function_slots OpCode.async = b ∷ []
function_slots OpCode.call = b ∷ []
function_slots OpCode.load_function = b ∷ []
function_slots OpCode.fork = b ∷ []
function_slots _ = []

-- Operands that name an instruction to go to.
abbrev pub target_slots : OpCode → List Slot
target_slots OpCode.adt_case = imm ∷ []
target_slots OpCode.path_split = imm ∷ []
target_slots OpCode.jump = imm ∷ []
target_slots OpCode.jump_if_true = imm ∷ []
target_slots OpCode.jump_if_false = imm ∷ []
target_slots _ = []

-- Operands with a greatest value; 0 where the operand is unused.
abbrev pub limit_slots : OpCode → List (Slot × ℕ)
limit_slots OpCode.map = (c, 1) ∷ (imm, 0) ∷ []
limit_slots OpCode.transform = (c, 1) ∷ (imm, 0) ∷ []
limit_slots OpCode.support = (c, 0) ∷ []
limit_slots OpCode.expect = (c, 0) ∷ []
limit_slots OpCode.validate = (imm, 0) ∷ []
limit_slots OpCode.append = (imm, 0) ∷ []
limit_slots OpCode.attenuate = (imm, 0) ∷ []
limit_slots OpCode.trace_distance = (imm, 0) ∷ []
limit_slots OpCode.append_full_redundancy = (imm, 0) ∷ []
limit_slots OpCode.force = (imm, 0) ∷ []
limit_slots OpCode.joint_condition_map = (imm, 0) ∷ []
limit_slots OpCode.observe_map = (imm, 0) ∷ []
limit_slots OpCode.lazy = (imm, 0) ∷ []
limit_slots OpCode.joint_build_finite = (imm, 0) ∷ []
limit_slots OpCode.evidence = (imm, 0) ∷ []
limit_slots OpCode.assume = (imm, 0) ∷ []
limit_slots OpCode.revision = (c, 0) ∷ (imm, 0) ∷ []
limit_slots OpCode.sample_state_dist = (c, 0) ∷ (imm, 0) ∷ []
limit_slots OpCode.joint_sample = (c, 0) ∷ (imm, 0) ∷ []
limit_slots OpCode.resolve = (c, 0) ∷ (imm, 0) ∷ []
limit_slots OpCode.possibility_build = (c, 0) ∷ (imm, 0) ∷ []
limit_slots OpCode.distribution_build = (c, 0) ∷ (imm, 0) ∷ []
limit_slots OpCode.info_sample = (c, 0) ∷ (imm, 0) ∷ []
limit_slots OpCode.derivation = (c, 0) ∷ (imm, 0) ∷ []
limit_slots OpCode.explain = (c, 0) ∷ (imm, 0) ∷ []
limit_slots OpCode.load_function = (c, 0) ∷ (imm, 0) ∷ []
limit_slots OpCode.measure = (c, 2) ∷ (imm, 0) ∷ []
limit_slots OpCode.measure_basis = (c, 2) ∷ (imm, 2) ∷ []
limit_slots OpCode.estimate_measure_probability = (c, 2) ∷ []
limit_slots OpCode.estimate_measure_distribution = (c, 2) ∷ []
limit_slots OpCode.path_split = (b, 0) ∷ (c, 0) ∷ []
limit_slots OpCode.path_join = (a, 0) ∷ (b, 0) ∷ (c, 0) ∷ (imm, 0) ∷ []
limit_slots OpCode.host_call = (b, 221) ∷ []
limit_slots _ = []

-- Operands that may not be 0.
abbrev pub positive_slots : OpCode → List Slot
positive_slots OpCode.support = imm ∷ []
positive_slots OpCode.estimate_measure_probability = imm ∷ []
positive_slots OpCode.estimate_measure_distribution = imm ∷ []
positive_slots OpCode.joint_build = c ∷ []
positive_slots _ = []

abbrev pub HasType : ValueType → Option Value → Type 0
HasType t none = ⊥
HasType t (some v) = value_type v ≡ t

-- Three numbers that `state_make_complex` takes for a state.
abbrev pub MakesState : F64 → Option Value → Option Value → Option Value → Type 0
MakesState fl (some (Value.number p)) (some (Value.number re)) (some (Value.number im)) =
    state_make_complex fl p re im ≡ ok tt
MakesState fl _ _ _ = ⊥

abbrev pub HasArity : ℕ → Option Function → Type 0
HasArity n none = ⊥
HasArity n (some f) = n ≡ f.arity

-- What two opcodes want beyond the table, and the opcode that is none.
abbrev pub Extra : F64 → OpCode → Chunk → Instruction → Type 0
Extra fl OpCode.state_new chunk i =
    MakesState fl (get_elem? chunk.constants i.b) (get_elem? chunk.constants i.c)
      (get_elem? chunk.constants i.imm)
Extra fl OpCode.fork chunk i = HasArity i.imm (get_elem? chunk.functions i.b)
Extra fl OpCode.count chunk i = ⊥
Extra fl _ chunk i = Unit

-- Every operand is in its range.
pub record Accepts (fl : F64) (op : OpCode) (chunk : Chunk) (i : Instruction) : Type 0 where
  pub registers : All (λ s. operand i s < 256) (register_slots op)
  pub ranges : All (λ r. operand i r.0 + operand i r.1 ≤ 256 × operand i r.0 < 256) (range_slots op)
  pub constants : All (λ s. operand i s < count_u32 chunk.constants) (constant_slots op)
  pub typed :
      All
        (λ s.
          operand i s.0 < count_u32 chunk.constants
          × HasType s.1 (get_elem? chunk.constants (operand i s.0)))
        (typed_slots op)
  pub functions : All (λ s. operand i s < count_u32 chunk.functions) (function_slots op)
  pub targets : All (λ s. operand i s < count_u32 chunk.code) (target_slots op)
  pub limits : All (λ s. operand i s.0 ≤ s.1) (limit_slots op)
  pub positive : All (λ s. 0 < operand i s) (positive_slots op)
  pub extra : Extra fl op chunk i

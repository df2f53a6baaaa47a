-- ===== src/Bytecode/Chunk.antt =====
-- vm/rust/lana-bytecode/src/value.rs and chunk.rs: constants, instructions, functions, chunks.
-- A `u32` or a `usize` is a native number, an `f64` its 64 bits, a `String` its UTF-8 bytes.
use lana.Prelude.{ℕ, Bool, Option, List, [], ◌∷◌, get_elem?}
use lana.Bytecode.Opcode.{OpCode}

pub data ValueType : Type 0 where
  null number bool string state distribution sample joint_state array function task : ValueType
  state_dist map possibility path_set shared_capability adt tensor n_qubit_state povm : ValueType
  channel observable lazy generator set regex optimizer training_result : ValueType
  inference_algorithm posterior future dataset kernel network object_value class_object : ValueType

-- `value_type as u8`: the declaration order, from 0.
unfoldable pub type_code : ValueType → ℕ
type_code ValueType.null = 0
type_code ValueType.number = 1
type_code ValueType.bool = 2
type_code ValueType.string = 3
type_code ValueType.state = 4
type_code ValueType.distribution = 5
type_code ValueType.sample = 6
type_code ValueType.joint_state = 7
type_code ValueType.array = 8
type_code ValueType.function = 9
type_code ValueType.task = 10
type_code ValueType.state_dist = 11
type_code ValueType.map = 12
type_code ValueType.possibility = 13
type_code ValueType.path_set = 14
type_code ValueType.shared_capability = 15
type_code ValueType.adt = 16
type_code ValueType.tensor = 17
type_code ValueType.n_qubit_state = 18
type_code ValueType.povm = 19
type_code ValueType.channel = 20
type_code ValueType.observable = 21
type_code ValueType.lazy = 22
type_code ValueType.generator = 23
type_code ValueType.set = 24
type_code ValueType.regex = 25
type_code ValueType.optimizer = 26
type_code ValueType.training_result = 27
type_code ValueType.inference_algorithm = 28
type_code ValueType.posterior = 29
type_code ValueType.future = 30
type_code ValueType.dataset = 31
type_code ValueType.kernel = 32
type_code ValueType.network = 33
type_code ValueType.object_value = 34
type_code ValueType.class_object = 35

abbrev pub value_types : List ValueType
value_types =
    ValueType.null ∷ ValueType.number ∷ ValueType.bool ∷ ValueType.string ∷ ValueType.state
    ∷ ValueType.distribution ∷ ValueType.sample ∷ ValueType.joint_state ∷ ValueType.array
    ∷ ValueType.function ∷ ValueType.task ∷ ValueType.state_dist ∷ ValueType.map
    ∷ ValueType.possibility ∷ ValueType.path_set ∷ ValueType.shared_capability ∷ ValueType.adt
    ∷ ValueType.tensor ∷ ValueType.n_qubit_state ∷ ValueType.povm ∷ ValueType.channel
    ∷ ValueType.observable ∷ ValueType.lazy ∷ ValueType.generator ∷ ValueType.set ∷ ValueType.regex
    ∷ ValueType.optimizer ∷ ValueType.training_result ∷ ValueType.inference_algorithm
    ∷ ValueType.posterior ∷ ValueType.future ∷ []

-- `ValueType::try_from`: the byte is transmuted if it is at most that of `Future`.
unfoldable pub type_of_byte : ℕ → Option ValueType
type_of_byte byte = get_elem? value_types byte

pub data Value : Type 0 where
  null : Value
  number : ℕ → Value
  bool : Bool → Value
  string : List ℕ → Value

unfoldable pub value_type : Value → ValueType
value_type Value.null = ValueType.null
value_type (Value.number _) = ValueType.number
value_type (Value.bool _) = ValueType.bool
value_type (Value.string _) = ValueType.string

pub record Instruction : Type 0 where
  pub opcode : OpCode
  pub a : ℕ
  pub b : ℕ
  pub c : ℕ
  pub imm : ℕ
  pub line : ℕ

pub record Function : Type 0 where
  pub name : List ℕ
  pub entry : ℕ
  pub register_count : ℕ
  pub arity : ℕ

pub record Chunk : Type 0 where
  pub version : ℕ
  pub entry : ℕ
  pub code : List Instruction
  pub constants : List Value
  pub functions : List Function

-- ===== src/Bytecode/Opcode.antt =====
-- The opcodes of vm/rust/lana-bytecode/src/opcode.rs, their discriminants and mnemonics.
pub mod Codes
use Prim.Native.String.{String}
use lana.Prelude.{ℕ, Bool, ◌||◌, ◌==◌, Option, List, [], ◌∷◌, get_elem?}

pub data OpCode : Type 0 where
  nop load_const move state_new state_build transform measure append : OpCode
  sample_state_dist measure_basis estimate_measure_probability : OpCode
  estimate_measure_distribution get_field get_index set_index history_config : OpCode
  previous change velocity binary unary compare jump jump_if_true jump_if_false : OpCode
  array_new array_get array_set call return print halt fork join join_timeout : OpCode
  join_all cancel taskgroup_enter taskgroup_exit host_call joint_build joint_project : OpCode
  joint_condition joint_sample resolve joint_build_finite joint_rename : OpCode
  possibility_build path_split path_join observe info_sample evidence assume : OpCode
  derivation explain mix map support expect validate revision attenuate : OpCode
  trace_distance append_redundant append_full_redundancy append_complementary : OpCode
  adt_build adt_case adt_get lazy force bootstrap load_function generator yield next : OpCode
  async await run_async distribution_build joint_condition_map observe_map value_new : OpCode
  object_new oo_get oo_set oo_call oo_static_call oo_as_interface count : OpCode

-- `opcode as u8`: the declaration order, from 0.
unfoldable pub discriminant : OpCode → ℕ
discriminant nop = 0
discriminant load_const = 1
discriminant move = 2
discriminant state_new = 3
discriminant state_build = 4
discriminant transform = 5
discriminant measure = 6
discriminant append = 7
discriminant sample_state_dist = 8
discriminant measure_basis = 9
discriminant estimate_measure_probability = 10
discriminant estimate_measure_distribution = 11
discriminant get_field = 12
discriminant get_index = 13
discriminant set_index = 14
discriminant history_config = 15
discriminant previous = 16
discriminant change = 17
discriminant velocity = 18
discriminant binary = 19
discriminant unary = 20
discriminant compare = 21
discriminant jump = 22
discriminant jump_if_true = 23
discriminant jump_if_false = 24
discriminant array_new = 25
discriminant array_get = 26
discriminant array_set = 27
discriminant call = 28
discriminant return = 29
discriminant print = 30
discriminant halt = 31
discriminant fork = 32
discriminant join = 33
discriminant join_timeout = 34
discriminant join_all = 35
discriminant cancel = 36
discriminant taskgroup_enter = 37
discriminant taskgroup_exit = 38
discriminant host_call = 39
discriminant joint_build = 40
discriminant joint_project = 41
discriminant joint_condition = 42
discriminant joint_sample = 43
discriminant resolve = 44
discriminant joint_build_finite = 45
discriminant joint_rename = 46
discriminant possibility_build = 47
discriminant path_split = 48
discriminant path_join = 49
discriminant observe = 50
discriminant info_sample = 51
discriminant evidence = 52
discriminant assume = 53
discriminant derivation = 54
discriminant explain = 55
discriminant mix = 56
discriminant map = 57
discriminant support = 58
discriminant expect = 59
discriminant validate = 60
discriminant revision = 61
discriminant attenuate = 62
discriminant trace_distance = 63
discriminant append_redundant = 64
discriminant append_full_redundancy = 65
discriminant append_complementary = 66
discriminant adt_build = 67
discriminant adt_case = 68
discriminant adt_get = 69
discriminant lazy = 70
discriminant force = 71
discriminant bootstrap = 72
discriminant load_function = 73
discriminant generator = 74
discriminant yield = 75
discriminant next = 76
discriminant async = 77
discriminant await = 78
discriminant run_async = 79
discriminant distribution_build = 80
discriminant joint_condition_map = 81
discriminant observe_map = 82
discriminant value_new = 83
discriminant object_new = 84
discriminant oo_get = 85
discriminant oo_set = 86
discriminant oo_call = 87
discriminant oo_static_call = 88
discriminant oo_as_interface = 89
discriminant count = 90

-- The declaration order, without the sentinel `count`.
abbrev pub opcodes : List OpCode
opcodes =
    nop ∷ load_const ∷ move ∷ state_new ∷ state_build ∷ transform ∷ measure ∷ append
    ∷ sample_state_dist ∷ measure_basis ∷ estimate_measure_probability
    ∷ estimate_measure_distribution ∷ get_field ∷ get_index ∷ set_index ∷ history_config ∷ previous
    ∷ change ∷ velocity ∷ binary ∷ unary ∷ compare ∷ jump ∷ jump_if_true ∷ jump_if_false ∷ array_new
    ∷ array_get ∷ array_set ∷ call ∷ return ∷ print ∷ halt ∷ fork ∷ join ∷ join_timeout ∷ join_all
    ∷ cancel ∷ taskgroup_enter ∷ taskgroup_exit ∷ host_call ∷ joint_build ∷ joint_project
    ∷ joint_condition ∷ joint_sample ∷ resolve ∷ joint_build_finite ∷ joint_rename
    ∷ possibility_build ∷ path_split ∷ path_join ∷ observe ∷ info_sample ∷ evidence ∷ assume
    ∷ derivation ∷ explain ∷ mix ∷ map ∷ support ∷ expect ∷ validate ∷ revision ∷ attenuate
    ∷ trace_distance ∷ append_redundant ∷ append_full_redundancy ∷ append_complementary ∷ adt_build
    ∷ adt_case ∷ adt_get ∷ lazy ∷ force ∷ bootstrap ∷ load_function ∷ generator ∷ yield ∷ next
    ∷ async ∷ await ∷ run_async ∷ distribution_build ∷ joint_condition_map ∷ observe_map ∷ value_new
    ∷ object_new ∷ oo_get ∷ oo_set ∷ oo_call ∷ oo_static_call ∷ oo_as_interface ∷ []

-- `OpCode::try_from`: below the sentinel, the byte is transmuted to the opcode it numbers.
unfoldable pub try_from : ℕ → Option OpCode
try_from byte = get_elem? opcodes byte

-- The stable mnemonic of an opcode.
unfoldable pub name : OpCode → String
name nop = "NOP"
name load_const = "LOAD_CONST"
name move = "MOVE"
name state_new = "STATE_NEW"
name state_build = "STATE_BUILD"
name transform = "TRANSFORM"
name measure = "MEASURE"
name append = "APPEND"
name sample_state_dist = "SAMPLE_STATE_DIST"
name measure_basis = "MEASURE_BASIS"
name estimate_measure_probability = "ESTIMATE_MEASURE_PROBABILITY"
name estimate_measure_distribution = "ESTIMATE_MEASURE_DISTRIBUTION"
name get_field = "GET_FIELD"
name get_index = "GET_INDEX"
name set_index = "SET_INDEX"
name history_config = "HISTORY_CONFIG"
name previous = "PREVIOUS"
name change = "CHANGE"
name velocity = "VELOCITY"
name binary = "BINARY"
name unary = "UNARY"
name compare = "COMPARE"
name jump = "JUMP"
name jump_if_true = "JUMP_IF_TRUE"
name jump_if_false = "JUMP_IF_FALSE"
name array_new = "ARRAY_NEW"
name array_get = "ARRAY_GET"
name array_set = "ARRAY_SET"
name call = "CALL"
name return = "RETURN"
name print = "PRINT"
name halt = "HALT"
name fork = "FORK"
name join = "JOIN"
name join_timeout = "JOIN_TIMEOUT"
name join_all = "JOIN_ALL"
name cancel = "CANCEL"
name taskgroup_enter = "TASKGROUP_ENTER"
name taskgroup_exit = "TASKGROUP_EXIT"
name host_call = "HOST_CALL"
name joint_build = "JOINT_BUILD"
name joint_project = "JOINT_PROJECT"
name joint_condition = "JOINT_CONDITION"
name joint_sample = "JOINT_SAMPLE"
name resolve = "RESOLVE"
name joint_build_finite = "JOINT_BUILD_FINITE"
name joint_rename = "JOINT_RENAME"
name possibility_build = "POSSIBILITY_BUILD"
name path_split = "PATH_SPLIT"
name path_join = "PATH_JOIN"
name observe = "OBSERVE"
name info_sample = "INFO_SAMPLE"
name evidence = "EVIDENCE"
name assume = "ASSUME"
name derivation = "DERIVATION"
name explain = "EXPLAIN"
name mix = "MIX"
name map = "MAP"
name support = "SUPPORT"
name expect = "EXPECT"
name validate = "VALIDATE"
name revision = "REVISION"
name attenuate = "ATTENUATE"
name trace_distance = "TRACE_DISTANCE"
name append_redundant = "APPEND_REDUNDANT"
name append_full_redundancy = "APPEND_FULL_REDUNDANCY"
name append_complementary = "APPEND_COMPLEMENTARY"
name adt_build = "ADT_BUILD"
name adt_case = "ADT_CASE"
name adt_get = "ADT_GET"
name lazy = "LAZY"
name force = "FORCE"
name bootstrap = "BOOTSTRAP"
name load_function = "LOAD_FUNCTION"
name generator = "GENERATOR"
name yield = "YIELD"
name next = "NEXT"
name async = "ASYNC"
name await = "AWAIT"
name run_async = "RUN_ASYNC"
name distribution_build = "DISTRIBUTION_BUILD"
name joint_condition_map = "JOINT_CONDITION_MAP"
name observe_map = "OBSERVE_MAP"
name value_new = "VALUE_NEW"
name object_new = "OBJECT_NEW"
name oo_get = "OO_GET"
name oo_set = "OO_SET"
name oo_call = "OO_CALL"
name oo_static_call = "OO_STATIC_CALL"
name oo_as_interface = "OO_AS_INTERFACE"
name count = "COUNT"

-- The version and size constants of the format.
abbrev pub labc_version : ℕ
labc_version = 2

abbrev pub max_registers : ℕ
max_registers = 256

-- The versions that the loader and the verifier accept.
unfoldable pub version_known : ℕ → Bool
version_known v = v == labc_version || (v == 1 || (v == 3 || (v == 4 || (v == 5 || v == 6))))

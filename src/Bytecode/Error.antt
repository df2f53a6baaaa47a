-- ===== src/Bytecode/Error.antt =====
-- vm/rust/lana-bytecode/src/error.rs: the error codes, and the record that a failed
-- verification or load returns. The message text is kept as the format string it is built from.
use Prim.Native.String.{String}
use lana.Prelude.{ℕ}

pub data LanaError : Type 0 where
  ok invalid_state invalid_probability invalid_dependency type register opcode : LanaError
  constant jump transform compose measure history format incompatible_format io oom : LanaError
  limit task cancelled timeout invalid_transform_result unsupported_operation : LanaError
  unsupported_exact_measurement invalid_distribution budget_exhausted key parse : LanaError
  assertion invalid_conditioning unresolved_value path_limit capability conflict : LanaError
  not_found compacted_history schema unsupported_value corruption invalid_parameters : LanaError
  claim_mismatch claim_revoked claim_expired unauthorized_issuer integrity : LanaError
  no_matching_event external network : LanaError

-- The error kind that the command line prints.
unfoldable pub kind_name : LanaError → String
kind_name ok = "none"
kind_name invalid_state = "validation"
kind_name invalid_probability = "validation"
kind_name invalid_dependency = "validation"
kind_name type = "type"
kind_name register = "bytecode"
kind_name opcode = "bytecode"
kind_name constant = "bytecode"
kind_name jump = "bytecode"
kind_name transform = "validation"
kind_name compose = "validation"
kind_name measure = "validation"
kind_name history = "validation"
kind_name format = "bytecode"
kind_name incompatible_format = "bytecode"
kind_name io = "io"
kind_name oom = "resource-limit"
kind_name limit = "resource-limit"
kind_name task = "task"
kind_name cancelled = "cancellation"
kind_name timeout = "timeout"
kind_name invalid_transform_result = "validation"
kind_name unsupported_operation = "unsupported"
kind_name unsupported_exact_measurement = "unsupported"
kind_name invalid_distribution = "validation"
kind_name budget_exhausted = "resource-limit"
kind_name key = "validation"
kind_name parse = "parse"
kind_name assertion = "assertion"
kind_name invalid_conditioning = "resolution"
kind_name unresolved_value = "resolution"
kind_name path_limit = "resource-limit"
kind_name capability = "validation"
kind_name conflict = "validation"
kind_name not_found = "validation"
kind_name compacted_history = "validation"
kind_name schema = "validation"
kind_name unsupported_value = "validation"
kind_name corruption = "validation"
kind_name invalid_parameters = "validation"
kind_name claim_mismatch = "validation"
kind_name claim_revoked = "validation"
kind_name claim_expired = "validation"
kind_name unauthorized_issuer = "validation"
kind_name integrity = "validation"
kind_name no_matching_event = "validation"
kind_name external = "validation"
kind_name network = "validation"

-- `LanaError::name`
unfoldable pub error_name : LanaError → String
error_name ok = "LANA_OK"
error_name invalid_state = "LANA_ERR_INVALID_STATE"
error_name invalid_probability = "LANA_ERR_INVALID_PROBABILITY"
error_name invalid_dependency = "LANA_ERR_INVALID_DEPENDENCY"
error_name type = "LANA_ERR_TYPE"
error_name register = "LANA_ERR_REGISTER"
error_name opcode = "LANA_ERR_OPCODE"
error_name constant = "LANA_ERR_CONSTANT"
error_name jump = "LANA_ERR_JUMP"
error_name transform = "LANA_ERR_TRANSFORM"
error_name compose = "LANA_ERR_COMPOSE"
error_name measure = "LANA_ERR_MEASURE"
error_name history = "LANA_ERR_HISTORY"
error_name format = "LANA_ERR_FORMAT"
error_name incompatible_format = "LANA_ERR_INCOMPATIBLE_FORMAT"
error_name io = "LANA_ERR_IO"
error_name oom = "LANA_ERR_OOM"
error_name limit = "LANA_ERR_LIMIT"
error_name task = "LANA_ERR_TASK"
error_name cancelled = "LANA_ERR_CANCELLED"
error_name timeout = "LANA_ERR_TIMEOUT"
error_name invalid_transform_result = "LANA_ERR_INVALID_TRANSFORM_RESULT"
error_name unsupported_operation = "LANA_ERR_UNSUPPORTED_OPERATION"
error_name unsupported_exact_measurement = "LANA_ERR_UNSUPPORTED_EXACT_MEASUREMENT"
error_name invalid_distribution = "LANA_ERR_INVALID_DISTRIBUTION"
error_name budget_exhausted = "LANA_ERR_BUDGET_EXHAUSTED"
error_name key = "LANA_ERR_KEY"
error_name parse = "LANA_ERR_PARSE"
error_name assertion = "LANA_ERR_ASSERTION"
error_name invalid_conditioning = "LANA_ERR_INVALID_CONDITIONING"
error_name unresolved_value = "LANA_ERR_UNRESOLVED_VALUE"
error_name path_limit = "LANA_ERR_PATH_LIMIT"
error_name capability = "LANA_ERR_CAPABILITY"
error_name conflict = "LANA_ERR_CONFLICT"
error_name not_found = "LANA_ERR_NOT_FOUND"
error_name compacted_history = "LANA_ERR_COMPACTED_HISTORY"
error_name schema = "LANA_ERR_SCHEMA"
error_name unsupported_value = "LANA_ERR_UNSUPPORTED_VALUE"
error_name corruption = "LANA_ERR_CORRUPTION"
error_name invalid_parameters = "LANA_ERR_INVALID_PARAMETERS"
error_name claim_mismatch = "LANA_ERR_CLAIM_MISMATCH"
error_name claim_revoked = "LANA_ERR_CLAIM_REVOKED"
error_name claim_expired = "LANA_ERR_CLAIM_EXPIRED"
error_name unauthorized_issuer = "LANA_ERR_UNAUTHORIZED_ISSUER"
error_name integrity = "LANA_ERR_INTEGRITY"
error_name no_matching_event = "LANA_ERR_NO_MATCHING_EVENT"
error_name external = "LANA_ERR_EXTERNAL"
error_name network = "LANA_ERR_NETWORK"

-- The messages, one constructor for each format string, with what it prints.
pub data Message : Type 0 where
  no_entry_point : Message
  unsupported_version unknown_opcode invalid_function : ℕ → Message
  invalid_operands : String → Message
  text : String → Message

pub record LanaErrorInfo : Type 0 where
  pub code : LanaError
  pub ip : ℕ
  pub opcode : ℕ
  pub line : ℕ
  pub message : Message

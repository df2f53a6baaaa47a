-- ===== src/Bytecode/Verifier.antt =====
-- `verify` of vm/rust/lana-bytecode/src/verifier.rs.
pub mod Verified
pub mod Containment
use lana.Prelude.{
  ℕ, zero, suc, ◌<◌, Bool, true, false, not, ◌&&◌, ◌||◌, ltb, leb, ◌==◌, if◌then◌else◌, List, [],
  ◌∷◌, Result, ok, err, panic, ◌>>=◌, ◌>>◌, require, map_err,
}
use lana.Bytecode.Opcode
use lana.Bytecode.Opcode.{OpCode, discriminant, version_known, max_registers}
use lana.Bytecode.Error.{LanaError, LanaErrorInfo, Message}
use lana.Bytecode.Float.{F64}
use lana.Bytecode.Chunk.{Instruction, Function, Chunk}
use lana.Bytecode.Check.Arms.{count_u32}
use lana.Bytecode.Check.{verify_instruction}
use lana.Bytecode.Objects
use lana.Bytecode.Objects.Descriptor.{Serde}

abbrev pub Verdict : Type 0
Verdict = Result LanaErrorInfo (Unit {0})

-- The first opcode that a version does not have.
unfoldable pub max_opcode_for_version : ℕ → ℕ
unfolding discriminant
max_opcode_for_version version =
    if version == 6
    then discriminant OpCode.count
    else if version == 5
    then discriminant OpCode.value_new
    else if version == 4
    then discriminant OpCode.distribution_build
    else if version == 3
    then discriminant OpCode.async
    else discriminant OpCode.generator

-- The error at the head of a chunk, where no instruction is to blame.
abbrev pub head_error : Message → LanaErrorInfo
head_error message = record {
  code = LanaError.format;
  ip = 0;
  opcode = 0;
  line = 0;
  message = message;
}

function_error : ℕ → Function → LanaErrorInfo
unfolding discriminant
function_error index f = record {
  code = LanaError.format;
  ip = f.entry;
  opcode = discriminant OpCode.call;
  line = 0;
  message = Message.invalid_function index;
}

unfoldable pub function_ok : Chunk → Function → Bool
function_ok chunk f =
    ltb f.entry (count_u32 chunk.code)
    && (leb f.register_count max_registers && leb f.arity f.register_count)

-- The loop over the functions, from index `index` on.
unfoldable pub verify_functions : Chunk → ℕ → List Function → Verdict
unfolding function_ok function_error
verify_functions chunk index [] = ok tt
verify_functions chunk index (f ∷ fs) = do
  require (function_ok chunk f) (function_error index f)
  verify_functions chunk (suc index) fs

unfoldable pub opcode_error : ℕ → Instruction → LanaErrorInfo
unfolding discriminant
opcode_error ip i = record {
  code = LanaError.opcode;
  ip = ip;
  opcode = discriminant i.opcode;
  line = i.line;
  message = Message.unknown_opcode (discriminant i.opcode);
}

unfoldable pub operand_error : ℕ → Instruction → LanaError → LanaErrorInfo
unfolding discriminant Opcode.name
operand_error ip i code = record {
  code = code;
  ip = ip;
  opcode = discriminant i.opcode;
  line = i.line;
  message = Message.invalid_operands (Opcode.name i.opcode);
}

-- The loop over the instructions, from `ip` on.
unfoldable pub verify_code : F64 → Chunk → ℕ → List Instruction → Verdict
unfolding opcode_error operand_error
verify_code fl chunk ip [] = ok tt
verify_code fl chunk ip (i ∷ code) = do
  require (ltb (discriminant i.opcode) (max_opcode_for_version chunk.version)) (opcode_error ip i)
  map_err (operand_error ip i) (verify_instruction fl chunk i)
  verify_code fl chunk (suc ip) code

-- `chunk.code.is_empty() || chunk.entry >= chunk.code.len() as u32`, negated
unfoldable pub has_entry_point : Chunk → Bool
has_entry_point chunk = elim chunk.code [
  | [] ↦ false
  | _ ∷ _ ↦ ltb chunk.entry (count_u32 chunk.code)
]

unfoldable pub verify : F64 → Serde → Chunk → Verdict
unfolding has_entry_point
verify fl sd chunk = do
  require (has_entry_point chunk) (head_error Message.no_entry_point)
  require (version_known chunk.version) (head_error (Message.unsupported_version chunk.version))
  verify_functions chunk 0 chunk.functions
  verify_code fl chunk 0 chunk.code
  if chunk.version == 6 then Objects.verify sd chunk else ok tt

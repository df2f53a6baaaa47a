-- ===== src/Bytecode/Loader.antt =====
-- vm/rust/lana-bytecode/src/loader.rs: `load`, from bytes to a verified chunk.
pub mod Read
pub mod Parses
pub mod RoundTrip
pub mod Sizes
pub mod Reload
pub mod Accepted
use lana.Prelude.{
  ℕ, zero, suc, ◌+◌, ◌*◌, ◌/◌, ◌^◌, Bool, true, false, not, ◌&&◌, ◌||◌, ltb, leb, ◌==◌,
  if◌then◌else◌, Option, some, none, List, [], ◌∷◌, length, ◌≡◌, Result, ok, err, panic, map_err,
}
use lana.Bytecode.Opcode.{OpCode, try_from, version_known}
use lana.Bytecode.Error.{LanaError, LanaErrorInfo, Message}
use lana.Bytecode.Float.{F64}
use lana.Bytecode.Objects.Text.{str_eq}
use lana.Bytecode.Objects.Descriptor.{Serde}
use lana.Bytecode.Chunk.{ValueType, Value, type_of_byte, Instruction, Function, Chunk}
use lana.Bytecode.Encoder.{magic}
use lana.Bytecode.Verifier.{verify}
use Read.{
  Reader, Load, ◌>>=◌, ◌>>◌, return, fail, guard, load_error, format_error, u8, u32, u64, slice,
}

-- `str::from_utf8` and `String::from_utf8_lossy`, which copies valid text.
pub record Utf8 : Type 0 where
  pub is_valid : List ℕ → Bool
  pub lossy : List ℕ → List ℕ
  pub lossy_valid : (bs : List ℕ) → is_valid bs ≡ true → lossy bs ≡ bs

abbrev pub max_chunk_size : ℕ
max_chunk_size = 64 * 1024 * 1024

abbrev pub max_constants : ℕ
max_constants = 100000

abbrev pub max_functions : ℕ
max_functions = 10000

abbrev pub max_instructions : ℕ
max_instructions = 1000000

abbrev pub max_string_length : ℕ
max_string_length = 10000000

abbrev pub max_function_name_length : ℕ
max_function_name_length = 1000000

pub record Header : Type 0 where
  pub version : ℕ
  pub constants : ℕ
  pub functions : ℕ
  pub instructions : ℕ
  pub entry : ℕ

check_magic : Load (Unit {0})
unfolding slice str_eq
check_magic = do
  head ← slice 4
  guard (str_eq head magic) (load_error LanaError.incompatible_format "invalid LABC magic")

load_numbers : Load Header
unfolding u32
load_numbers = do
  version ← u32
  constants ← u32
  functions ← u32
  instructions ← u32
  entry ← u32
  return (record {
    version = version;
    constants = constants;
    functions = functions;
    instructions = instructions;
    entry = entry;
  })

within_limits : Header → Bool
within_limits h =
    leb h.constants max_constants
    && (leb h.functions max_functions && leb h.instructions max_instructions)

within_size : ℕ → Header → Bool
within_size size h =
    leb h.constants size && (leb h.functions (size / 16) && leb h.instructions (size / 21))

version_error : ℕ → LanaErrorInfo
version_error version = record {
  code = LanaError.incompatible_format;
  ip = 0;
  opcode = 0;
  line = 0;
  message = Message.unsupported_version version;
}

abbrev limit_error : LanaErrorInfo
limit_error = load_error LanaError.limit "chunk exceeds count limits"

abbrev size_error : LanaErrorInfo
size_error = load_error LanaError.format "chunk counts exceed file size"

-- The checks of the version and of the counts. `size` is `bytes.len()`.
check_header : ℕ → Header → Load Header
unfolding version_known version_error within_limits within_size
check_header size h = do
  guard (version_known h.version) (version_error h.version)
  guard (within_limits h) limit_error
  guard (within_size size h) size_error
  return h

unfoldable pub load_header : ℕ → Load Header
unfolding check_magic load_numbers check_header
load_header size = do check_magic; h ← load_numbers; check_header size h

-- `ok_or_else(format_error)` of a failed conversion
abbrev or_format {ℓ} : {A : Type ℓ} → Option A → Load A
or_format (some a) = return a
or_format none = fail format_error

-- A counted loop that pushes onto a vector.
unfoldable pub load_many {ℓ} : {A : Type ℓ} → Load A → ℕ → Load (List A)
load_many item zero = return []
load_many item (suc n) = do x ← item; xs ← load_many item n; return (x ∷ xs)

module _ (u : Utf8) where
  load_string : ℕ → Load Value
  unfolding u32 slice
  load_string version = do
    len ← u32
    guard (leb len max_string_length)
        (load_error LanaError.format "string constant exceeds length limit")
    bytes ← slice len
    if version == 6
        then (do
          guard (u.is_valid bytes)
              (load_error LanaError.format "invalid UTF-8 in v6 string constant")
          return (Value.string bytes))
        else return (Value.string (u.lossy bytes))

  load_bool : Load Value
  unfolding u8
  load_bool = do
    boolean ← u8
    guard (leb boolean 1) (load_error LanaError.format "invalid boolean constant")
    return (Value.bool (not (boolean == 0)))

  load_number : Load Value
  unfolding u64
  load_number = do bits ← u64; return (Value.number bits)

  load_payload : ℕ → ValueType → Load Value
  unfolding load_number load_bool load_string
  load_payload version ValueType.number = load_number
  load_payload version ValueType.bool = load_bool
  load_payload version ValueType.string = load_string version
  load_payload version ValueType.null = return Value.null
  load_payload version _ = fail (load_error LanaError.format "constant type is not serializable")

  unfoldable pub load_constant : ℕ → Load Value
  unfolding u8 type_of_byte load_payload
  load_constant version = do
    type_byte ← u8
    value_type ← or_format (type_of_byte type_byte)
    load_payload version value_type

  unfoldable pub load_function : Load Function
  unfolding u32 slice
  load_function = do
    len ← u32
    guard (leb len max_function_name_length)
        (load_error LanaError.format "function name exceeds length limit")
    name ← slice len
    entry ← u32
    register_count ← u32
    arity ← u32
    return (record {
      name = u.lossy name;
      entry = entry;
      register_count = register_count;
      arity = arity;
    })

-- The opcode of a byte; one that is unknown becomes the sentinel.
abbrev opcode_of : ℕ → OpCode
opcode_of byte = elim (try_from byte) [ none ↦ OpCode.count | some op ↦ op ]

-- The instruction, and its opcode byte as it was read.
unfoldable pub load_instruction : Load (ℕ × Instruction)
unfolding u8 u32 try_from
load_instruction = do
  byte ← u8
  a ← u32
  b ← u32
  c ← u32
  imm ← u32
  line ← u32
  return (byte, record { opcode = opcode_of byte; a = a; b = b; c = c; imm = imm; line = line })

is_unknown : ℕ → Bool
unfolding try_from
is_unknown byte = elim (try_from byte) [ none ↦ true | some _ ↦ false ]

-- `unknown_opcode`: the first instruction, from `ip` on, whose byte is no opcode.
unfoldable pub first_unknown : ℕ → List (ℕ × Instruction) → Option (ℕ × ℕ)
unfolding is_unknown
first_unknown ip [] = none
first_unknown ip ((byte, _) ∷ is) =
    if is_unknown byte then some (ip, byte) else first_unknown (suc ip) is

abbrev pub code_of : List (ℕ × Instruction) → List Instruction
code_of [] = []
code_of ((_, i) ∷ is) = i ∷ code_of is

is_opcode_error : LanaError → Bool
is_opcode_error LanaError.opcode = true
is_opcode_error _ = false

-- An unknown opcode is reported by its own byte.
unfoldable pub name_unknown : Option (ℕ × ℕ) → LanaErrorInfo → LanaErrorInfo
unfolding is_opcode_error
name_unknown none e = e
name_unknown (some (ip, byte)) e =
    if is_opcode_error e.code && e.ip == ip
    then record e { opcode = byte; message = Message.unknown_opcode byte }
    else e

-- The chunk, and its instructions with their bytes.
abbrev chunk_of :
    Header → List Value → List Function → List (ℕ × Instruction) → Chunk × List (ℕ × Instruction)
chunk_of h constants functions instructions = (
  record {
    version = h.version;
    entry = h.entry;
    code = code_of instructions;
    constants = constants;
    functions = functions;
  },
  instructions,
)

-- Everything that is read, in order.
unfoldable pub load_parts : Utf8 → ℕ → Load (Chunk × List (ℕ × Instruction))
load_parts u size = do
  h ← load_header size
  constants ← load_many (load_constant u h.version) h.constants
  functions ← load_many (load_function u) h.functions
  instructions ← load_many load_instruction h.instructions
  return (chunk_of h constants functions instructions)

module _ (fl : F64) (sd : Serde) where
  -- The checks after reading: nothing is left over, and the chunk verifies.
  unfoldable pub load_checked :
      List ℕ
      → Result LanaErrorInfo ((Chunk × List (ℕ × Instruction)) × Reader)
      → Result LanaErrorInfo Chunk
  load_checked bytes (err e) = err e
  load_checked bytes panic = panic
  load_checked bytes (ok ((chunk, instructions), reader)) =
      if reader.offset == length bytes
      then elim (map_err (name_unknown (first_unknown 0 instructions)) (verify fl sd chunk)) [
        | ok _ ↦ ok chunk
        | err e ↦ err e
        | panic ↦ panic
      ]
      else err (load_error LanaError.format "trailing bytes after LABC chunk")

  unfoldable pub load : Utf8 → List ℕ → Result LanaErrorInfo Chunk
  unfolding load_checked
  load u bytes =
      if leb (length bytes) max_chunk_size
      then load_checked bytes (load_parts u (length bytes) (record { bytes = bytes; offset = 0 }))
      else err (load_error LanaError.limit "chunk exceeds size limit")

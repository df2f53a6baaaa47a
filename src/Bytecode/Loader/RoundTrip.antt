-- ===== src/Bytecode/Loader/RoundTrip.antt =====
-- The parts of a chunk, as vm/rust/lana-bytecode/src/encoder.rs writes them and
-- vm/rust/lana-bytecode/src/loader.rs reads them.
use lana.Prelude.{
  ℕ, suc, ◌^◌, ◌<◌, ◌≤◌, Bool, true, false, List, [], ◌∷◌, ◌++◌, length, map, ◌≡◌, refl, ap, subst,
  none, le→leb, All, arith, ◌==◌, if◌then◌else◌,
}
use lana.Bytecode.Opcode.{OpCode, discriminant}
use lana.Bytecode.Opcode.Codes.{try_from-discriminant}
use lana.Bytecode.Error.{LanaErrorInfo}
use lana.Bytecode.Bytes.{le_bytes}
use lana.Bytecode.Chunk.{Value, type_of_byte, Instruction, Function}
use lana.Bytecode.Encoder.{
  u32_bytes, len_bytes, bool_byte, encode_value, encode_function, encode_instruction,
}
use lana.Bytecode.Loader.{
  Utf8, load_bool, load_number, load_string, load_payload, load_constant, load_function,
  load_instruction, opcode_of, code_of, first_unknown, max_string_length, max_function_name_length,
}
use lana.Bytecode.Loader.Read.{◌>>◌, return, guard, u8, u32, u64, slice}
use lana.Bytecode.Loader.Parses.{
  Parses, Parses-return, Parses-guard, Parses-bind, Parses-map, Parses-last, Parses-slice,
  Parses-u8, Parses-u32, Parses-u64, Parses-len,
}

-- What a Rust value guarantees of itself (a `u32` field, a `String` in UTF-8), and the limits.
abbrev pub FitsValue : Utf8 → Value → Type 0
FitsValue u (Value.number bits) = bits < 2 ^ 64
FitsValue u (Value.string s) = (length s ≤ max_string_length) × (u.is_valid s ≡ true)
FitsValue u _ = Unit

pub record FitsFunction (u : Utf8) (f : Function) : Type 0 where
  pub name_length : length f.name ≤ max_function_name_length
  pub name_valid : u.is_valid f.name ≡ true
  pub entry : f.entry < 2 ^ 32
  pub register_count : f.register_count < 2 ^ 32
  pub arity : f.arity < 2 ^ 32

pub record FitsInstruction (i : Instruction) : Type 0 where
  pub a : i.a < 2 ^ 32
  pub b : i.b < 2 ^ 32
  pub c : i.c < 2 ^ 32
  pub imm : i.imm < 2 ^ 32
  pub line : i.line < 2 ^ 32

module _ (u : Utf8) where
  -- Valid text is kept, in every version.
  keep_string :
      (six : Bool) (s : List ℕ) (e : LanaErrorInfo)
      → u.is_valid s ≡ true
      → Parses
          (if six
            then (do guard (u.is_valid s) e; return (Value.string s))
            else return (Value.string (u.lossy s)))
          []
          (Value.string s)
  keep_string true s e h = Parses-guard _ [] _ e h (Parses-return (Value.string s))
  keep_string false s e h = rw (u.lossy_valid s h) (Parses-return (Value.string s))

  load_string_lem :
      (version : ℕ) (s : List ℕ)
      → length s ≤ max_string_length
      → u.is_valid s ≡ true
      → Parses (load_string u version) (len_bytes s ++ s) (Value.string s)
  unfolding load_string
  load_string_lem version s h valid =
      Parses-bind u32 _ (len_bytes s) s (Parses-len s (omega arith)) (
        Parses-guard _ s _ _ (le→leb _ _ h) (
          Parses-last (slice (length s)) _ s (Parses-slice s)
            (keep_string (version == 6) s _ valid)))

  load_bool_lem : (b : Bool) → Parses (load_bool u) (bool_byte b ∷ []) (Value.bool b)
  unfolding load_bool
  load_bool_lem true = Parses-last u8 _ (1 ∷ []) (Parses-u8 1) (Parses-return (Value.bool true))
  load_bool_lem false = Parses-last u8 _ (0 ∷ []) (Parses-u8 0) (Parses-return (Value.bool false))

  pub load_constant-encode_value :
      (version : ℕ) (v : Value)
      → FitsValue u v
      → Parses (load_constant u version) (encode_value v) v
  unfolding load_constant encode_value load_payload load_number type_of_byte
  load_constant-encode_value version Value.null h =
      Parses-last u8 _ (0 ∷ []) (Parses-u8 0) (Parses-return Value.null)
  load_constant-encode_value version (Value.number bits) h =
      Parses-bind u8 _ (1 ∷ []) (le_bytes 8 bits) (Parses-u8 1)
        (Parses-map u64 (λ n. Value.number n) (le_bytes 8 bits) (Parses-u64 bits h))
  load_constant-encode_value version (Value.bool b) h =
      Parses-bind u8 _ (2 ∷ []) (bool_byte b ∷ []) (Parses-u8 2) (load_bool_lem b)
  load_constant-encode_value version (Value.string s) h =
      Parses-bind u8 _ (3 ∷ []) (len_bytes s ++ s) (Parses-u8 3) (load_string_lem version s h.0 h.1)

  pub load_function-encode_function :
      (f : Function) → FitsFunction u f → Parses (load_function u) (encode_function f) f
  unfolding load_function encode_function
  load_function-encode_function f h =
      Parses-bind u32 _ (len_bytes f.name) _ (Parses-len f.name (omega arith)) (
        Parses-guard _ _ _ _ (le→leb _ _ h.name_length) (
          Parses-bind (slice (length f.name)) _ f.name _ (Parses-slice f.name) (
            Parses-bind u32 _ (u32_bytes f.entry) _ (Parses-u32 f.entry h.entry) (
              Parses-bind u32 _ (u32_bytes f.register_count) _
                (Parses-u32 f.register_count h.register_count)
                (rw (u.lossy_valid f.name h.name_valid)
                  (Parses-map u32 _ (u32_bytes f.arity) (Parses-u32 f.arity h.arity)))))))

opcode_of-discriminant : (op : OpCode) → discriminant op < 90 → opcode_of (discriminant op) ≡ op
opcode_of-discriminant op h = rw (try_from-discriminant op h, opcode_of)

pub load_instruction-encode_instruction :
    (i : Instruction)
    → FitsInstruction i
    → discriminant i.opcode < 90
    → Parses load_instruction (encode_instruction i) (discriminant i.opcode, i)
unfolding load_instruction encode_instruction
load_instruction-encode_instruction i h known =
    subst
      (λ op.
        Parses load_instruction (encode_instruction i)
          (discriminant i.opcode, record i { opcode = op }))
      (opcode_of-discriminant i.opcode known)
      (Parses-bind u8 _ (discriminant i.opcode ∷ []) _ (Parses-u8 (discriminant i.opcode)) (
        Parses-bind u32 _ (u32_bytes i.a) _ (Parses-u32 i.a h.a) (
          Parses-bind u32 _ (u32_bytes i.b) _ (Parses-u32 i.b h.b) (
            Parses-bind u32 _ (u32_bytes i.c) _ (Parses-u32 i.c h.c) (
              Parses-bind u32 _ (u32_bytes i.imm) _ (Parses-u32 i.imm h.imm)
                (Parses-map u32 _ (u32_bytes i.line) (Parses-u32 i.line h.line)))))))

-- The instructions with the bytes that they are written as.
abbrev pub with_byte : Instruction → ℕ × Instruction
with_byte i = (discriminant i.opcode, i)

-- All opcodes of the code are below the sentinel.
abbrev pub IsKnown : Instruction → Type 0
IsKnown i = discriminant i.opcode < 90

pub code_of-with_byte : (code : List Instruction) → code_of (map with_byte code) ≡ code
code_of-with_byte [] = refl
code_of-with_byte (i ∷ code) = ap (◌∷◌ i) (code_of-with_byte code)

pub first_unknown-with_byte :
    (ip : ℕ) (code : List Instruction)
    → All IsKnown code
    → first_unknown ip (map with_byte code) ≡ none
unfolding first_unknown
first_unknown-with_byte ip [] h = refl
first_unknown-with_byte ip (i ∷ code) h =
    ground (arith, try_from-discriminant i.opcode h.0, first_unknown-with_byte (suc ip) code h.1)

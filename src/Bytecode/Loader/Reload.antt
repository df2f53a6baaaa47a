-- ===== src/Bytecode/Loader/Reload.antt =====
-- `load` of vm/rust/lana-bytecode/src/loader.rs on what `encode` writes.
use mathlib.Core.List.{append-nil, map-id}
use lana.Prelude.{
  ℕ, ◌<◌, ◌≤◌, ◌^◌, true, le→leb, ◌==◌, ==_iff, List, [], ◌++◌, All, All-map, All-map₂, length, map,
  ◌≡◌, refl, subst, ok, arith,
}
use lana.Bytecode.Opcode.{OpCode, discriminant, version_known}
use lana.Bytecode.Float.{F64}
use lana.Bytecode.Objects.Descriptor.{Serde}
use lana.Bytecode.Chunk.{Instruction, Chunk}
use lana.Bytecode.Encoder.{
  u32_bytes, len_bytes, magic, encode_value, encode_function, encode_instruction, encode_all,
  encode_header, encode,
}
use lana.Bytecode.Verifier.{verify}
use lana.Bytecode.Verifier.Verified.{
  introduced, InstructionFits, version_known_iff, verify-Verified,
}
use lana.Bytecode.Loader.{
  Utf8, Header, check_magic, load_numbers, within_limits, within_size, limit_error, size_error,
  version_error, check_header, load_header, load_many, load_constant, load_function,
  load_instruction, load_parts, load_checked, load, max_constants, max_functions, max_instructions,
  max_chunk_size,
}
use lana.Bytecode.Loader.Read.{Load, ◌>>◌, guard, return, slice, u32}
use lana.Bytecode.Loader.Parses.{
  reader, Parses, Parses-return, Parses-guard, Parses-bind, Parses-map, Parses-last, Parses-many,
  Parses-slice, Parses-u32, Parses-len,
}
use lana.Bytecode.Loader.RoundTrip.{
  FitsValue, FitsFunction, FitsInstruction, IsKnown, load_constant-encode_value,
  load_function-encode_function, load_instruction-encode_instruction, with_byte, code_of-with_byte,
}
use lana.Bytecode.Loader.Sizes.{encode_sizes}

-- The limits of the loader, and what the Rust types of a chunk guarantee.
pub record FitsChunk (u : Utf8) (chunk : Chunk) : Type 0 where
  pub constant_count : length chunk.constants ≤ max_constants
  pub function_count : length chunk.functions ≤ max_functions
  pub instruction_count : length chunk.code ≤ max_instructions
  pub size : length (encode chunk) ≤ max_chunk_size
  pub constants : All (FitsValue u) chunk.constants
  pub functions : All (FitsFunction u) chunk.functions
  pub code : All FitsInstruction chunk.code

abbrev header_of : Chunk → Header
header_of chunk = record {
  version = chunk.version;
  constants = length chunk.constants;
  functions = length chunk.functions;
  instructions = length chunk.code;
  entry = chunk.entry;
}

version_known-small : (v : ℕ) → version_known v ≡ true → v < 2 ^ 32
unfolding version_known
version_known-small v h = ground arith

check_magic_lem : Parses check_magic magic tt
unfolding check_magic
check_magic_lem = Parses-last (slice 4) _ magic (Parses-slice magic) (Parses-return tt)

module _ (u : Utf8) (chunk : Chunk) (fits : FitsChunk u chunk)
    (known : version_known chunk.version ≡ true) (entry : chunk.entry < length chunk.code) where
  load_numbers_lem : Parses load_numbers (encode_header chunk) (header_of chunk)
  unfolding load_numbers encode_header
  load_numbers_lem =
      Parses-bind u32 _ (u32_bytes chunk.version) _
        (Parses-u32 chunk.version (version_known-small chunk.version known))
        (Parses-bind u32 _ (len_bytes chunk.constants) _
          (Parses-len chunk.constants (omega (arith, fits.constant_count)))
          (Parses-bind u32 _ (len_bytes chunk.functions) _
            (Parses-len chunk.functions (omega (arith, fits.function_count)))
            (Parses-bind u32 _ (len_bytes chunk.code) _
              (Parses-len chunk.code (omega (arith, fits.instruction_count)))
              (Parses-map u32 _ (u32_bytes chunk.entry)
                (Parses-u32 chunk.entry (omega (arith, fits.instruction_count, entry)))))))

  check_header_lem :
      Parses (check_header (length (encode chunk)) (header_of chunk)) [] (header_of chunk)
  unfolding check_header
  check_header_lem pre rest =
      let limits : within_limits (header_of chunk) ≡ true =
        ground (arith, fits.constant_count, fits.function_count, fits.instruction_count) in
      let size : within_size (length (encode chunk)) (header_of chunk) ≡ true =
        ground (arith, encode_sizes chunk) in
      let h = header_of chunk in
      let last : Load Header =
        guard (within_size (length (encode chunk)) h) size_error >> return h in
      Parses-guard (guard (within_limits h) limit_error >> last) [] (version_known chunk.version)
        (version_error chunk.version) known
        (Parses-guard last [] (within_limits h) limit_error limits (
          Parses-guard (return h) [] (within_size (length (encode chunk)) h) size_error size
            (Parses-return h)))
        pre rest

  load_header_lem :
      Parses (load_header (length (encode chunk))) (magic ++ encode_header chunk) (header_of chunk)
  unfolding load_header
  load_header_lem =
      Parses-bind check_magic _ magic _ check_magic_lem
        (Parses-last load_numbers _ (encode_header chunk) load_numbers_lem check_header_lem)

  load_constants_lem :
      Parses
        (load_many (load_constant u chunk.version) (length chunk.constants))
        (encode_all encode_value chunk.constants)
        chunk.constants
  load_constants_lem =
      subst
        (λ cs.
          Parses (load_many (load_constant u chunk.version) (length chunk.constants))
            (encode_all encode_value chunk.constants) cs)
        (map-id chunk.constants)
        (Parses-many (load_constant u chunk.version) encode_value (λ v. v) chunk.constants
          (All-map _ _ (load_constant-encode_value u chunk.version) chunk.constants fits.constants))

  load_functions_lem :
      Parses
        (load_many (load_function u) (length chunk.functions))
        (encode_all encode_function chunk.functions)
        chunk.functions
  load_functions_lem =
      subst
        (λ fs.
          Parses (load_many (load_function u) (length chunk.functions))
            (encode_all encode_function chunk.functions) fs)
        (map-id chunk.functions)
        (Parses-many (load_function u) encode_function (λ f. f) chunk.functions
          (All-map _ _ (load_function-encode_function u) chunk.functions fits.functions))

  module _ (opcodes_known : All IsKnown chunk.code) where
    load_code_lem :
        Parses
          (load_many load_instruction (length chunk.code))
          (encode_all encode_instruction chunk.code)
          (map with_byte chunk.code)
    load_code_lem =
        Parses-many load_instruction encode_instruction with_byte chunk.code
          (All-map₂ _ _ _ load_instruction-encode_instruction chunk.code fits.code opcodes_known)

    load_parts_lem :
        Parses
          (load_parts u (length (encode chunk)))
          (encode chunk)
          (chunk, map with_byte chunk.code)
    unfolding load_parts encode
    load_parts_lem =
        subst
          (λ code.
            Parses (load_parts u (length (encode chunk))) (encode chunk)
              (record chunk { code = code }, map with_byte chunk.code))
          (code_of-with_byte chunk.code)
          (Parses-bind (load_header (length (encode chunk))) _ (magic ++ encode_header chunk) _
            load_header_lem
            (Parses-bind (load_many (load_constant u chunk.version) (length chunk.constants)) _
              (encode_all encode_value chunk.constants) _ load_constants_lem
              (Parses-bind (load_many (load_function u) (length chunk.functions)) _
                (encode_all encode_function chunk.functions) _ load_functions_lem
                (Parses-map (load_many load_instruction (length chunk.code)) _
                  (encode_all encode_instruction chunk.code) load_code_lem))))

-- No version has the sentinel opcode.
introduced-le : (op : OpCode) → introduced op ≤ 6 → discriminant op < 90
unfolding discriminant
introduced-le op h = ground arith

module _ (fl : F64) (sd : Serde) (u : Utf8) (chunk : Chunk) where
  code-IsKnown :
      chunk.version ≤ 6
      → (code : List Instruction) → All (InstructionFits fl chunk) code
      → All IsKnown code
  code-IsKnown range =
      All-map (InstructionFits fl chunk) IsKnown
        (λ i h. introduced-le i.opcode (omega (arith, h.known, range)))

  load_checked_lem :
      (bytes : List ℕ)
      → verify fl sd chunk ≡ ok tt
      → load_checked fl sd bytes (ok ((chunk, map with_byte chunk.code), reader bytes []))
        ≡ ok chunk
  unfolding load_checked reader
  load_checked_lem bytes verified =
      let whole : (length bytes == length bytes) ≡ true = (==_iff (length bytes) _).1 refl in
      rw (whole, verified)

  -- A chunk that the verifier accepts and whose numbers, texts and counts fit the fields and the
  -- limits of the format is loaded again from its encoding.
  pub load-encode :
      verify fl sd chunk ≡ ok tt → FitsChunk u chunk → load fl sd u (encode chunk) ≡ ok chunk
  unfolding load reader
  load-encode verified fits =
      let v = (verify-Verified fl sd chunk).0 verified in
      let all_known = code-IsKnown v.version.1 chunk.code v.code in
      let known = (version_known_iff chunk.version).1 v.version in
      let read = load_parts_lem u chunk fits known (omega (arith, v.entry)) all_known [] [] in
      rw (le→leb (length (encode chunk)) max_chunk_size fits.size, rw append-nil at read)
        (load_checked_lem (encode chunk) verified)

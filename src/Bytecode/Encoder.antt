-- ===== src/Bytecode/Encoder.antt =====
-- vm/rust/lana-bytecode/src/encoder.rs: a chunk as bytes.
use lana.Prelude.{ℕ, ◌%◌, ◌^◌, Bool, true, false, List, [], ◌∷◌, ◌++◌, length}
use lana.Bytecode.Opcode.{discriminant}
use lana.Bytecode.Chunk.{Value, Instruction, Function, Chunk, value_type, type_code}
use lana.Bytecode.Bytes.{le_bytes}

-- `to_le_bytes` of a `u32`, and of a length cast to one
abbrev pub u32_bytes : ℕ → List ℕ
u32_bytes n = le_bytes 4 n

abbrev pub len_bytes {ℓ} : {A : Type ℓ} → List A → List ℕ
len_bytes xs = u32_bytes (length xs % 2 ^ 32)

abbrev pub magic : List ℕ
magic = b'L' ∷ b'A' ∷ b'B' ∷ b'C' ∷ []

abbrev pub bool_byte : Bool → ℕ
bool_byte true = 1
bool_byte false = 0

unfoldable pub encode_payload : Value → List ℕ
encode_payload Value.null = []
encode_payload (Value.number bits) = le_bytes 8 bits
encode_payload (Value.bool b) = bool_byte b ∷ []
encode_payload (Value.string s) = len_bytes s ++ s

unfoldable pub encode_value : Value → List ℕ
unfolding encode_payload value_type type_code
encode_value v = type_code (value_type v) ∷ encode_payload v

unfoldable pub encode_function : Function → List ℕ
encode_function f =
    len_bytes f.name
    ++ (f.name ++ (u32_bytes f.entry ++ (u32_bytes f.register_count ++ u32_bytes f.arity)))

unfoldable pub encode_instruction : Instruction → List ℕ
unfolding discriminant
encode_instruction i =
    discriminant i.opcode
    ∷ (u32_bytes i.a ++ (u32_bytes i.b ++ (u32_bytes i.c ++ (u32_bytes i.imm ++ u32_bytes i.line))))

-- A `for` loop that extends the output.
unfoldable pub encode_all {ℓ} : {A : Type ℓ} → (A → List ℕ) → List A → List ℕ
encode_all enc [] = []
encode_all enc (x ∷ xs) = enc x ++ encode_all enc xs

unfoldable pub encode_header : Chunk → List ℕ
encode_header chunk =
    u32_bytes chunk.version
    ++ (len_bytes chunk.constants
        ++ (len_bytes chunk.functions ++ (len_bytes chunk.code ++ u32_bytes chunk.entry)))

unfoldable pub encode : Chunk → List ℕ
unfolding encode_header encode_all encode_value encode_function encode_instruction
encode chunk =
    magic
    ++ (encode_header chunk
        ++ (encode_all encode_value chunk.constants
            ++ (encode_all encode_function chunk.functions
                ++ encode_all encode_instruction chunk.code)))

-- ===== src/Bytecode/Loader/Sizes.antt =====
-- How many bytes `encode` of vm/rust/lana-bytecode/src/encoder.rs writes.
use lana.Prelude.{ℕ, ◌*◌, ◌/◌, ◌≤◌, List, [], ◌∷◌, length, length-append, arith}
use lana.Bytecode.Bytes.{length-le_bytes}
use lana.Bytecode.Chunk.{Value, Instruction, Function, Chunk}
use lana.Bytecode.Encoder.{encode_value, encode_function, encode_instruction, encode_all, encode}

length-encode_all {ℓ} :
    {A : Type ℓ} (enc : A → List ℕ) (n : ℕ) (xs : List A)
    → ((x : A) → n ≤ length (enc x))
    → length xs * n ≤ length (encode_all enc xs)
unfolding encode_all
length-encode_all enc n [] h = omega arith
length-encode_all enc n (x ∷ xs) h =
    omega (arith, length-append (enc x) (encode_all enc xs), h x, length-encode_all enc n xs h)

encode_value_size : (v : Value) → 1 ≤ length (encode_value v)
unfolding encode_value
encode_value_size v = omega arith

encode_function_size : (f : Function) → 16 ≤ length (encode_function f)
unfolding encode_function
encode_function_size f = omega (arith, length-append {0}, length-le_bytes 4)

encode_instruction_size : (i : Instruction) → 21 ≤ length (encode_instruction i)
unfolding encode_instruction
encode_instruction_size i = omega (arith, length-append {0}, length-le_bytes 4)

-- Each constant takes a byte at least, each function 16, each instruction 21.
pub encode_sizes :
    (chunk : Chunk)
    → (length chunk.constants ≤ length (encode chunk))
      × (length chunk.functions ≤ length (encode chunk) / 16)
      × (length chunk.code ≤ length (encode chunk) / 21)
unfolding encode
encode_sizes chunk = omega (
  arith,
  length-append {0},
  length-encode_all encode_value 1 chunk.constants encode_value_size,
  length-encode_all encode_function 16 chunk.functions encode_function_size,
  length-encode_all encode_instruction 21 chunk.code encode_instruction_size,
)

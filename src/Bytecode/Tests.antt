-- ===== src/Bytecode/Tests.antt =====
-- Runs of the bytecode model, and the theorems at inputs that meet their hypotheses.
use lana.Prelude.{
  ℕ, ◌+◌, ◌<◌, ◌≤◌, true, false, List, [], ◌∷◌, some, none, get_elem?, length, ◌≡◌, ◌≢◌, ◌↔◌, ◌⊎◌,
  refl, ok, panic, arith, ◌==◌,
}
use lana.Bytecode.Opcode.{OpCode, discriminant, try_from, version_known}
use lana.Bytecode.Opcode.Codes.{try_from_iff}
use lana.Bytecode.Float.{F64}
use lana.Bytecode.Chunk.{Value, Instruction, Function, Chunk}
use lana.Bytecode.Check.{verify_instruction}
use lana.Bytecode.Check.Operands.{Accepts}
use lana.Bytecode.Check.Meets.{verify_instruction-Accepts, verify_instruction-ne-panic}
use lana.Bytecode.Objects
use lana.Bytecode.Objects.Descriptor.{Serde, descriptors}
use lana.Bytecode.Objects.Members.{names_loop, descriptors_loop}
use lana.Bytecode.Objects.Access.{
  enumerate, sort_entries, starts_at_zero, neighbours_meet, some_entry_free, regions_loop,
  check_region, region_end, last_before, ends_body, scan, check_instruction, has_target,
  refers_to_function, is_owned,
}
use lana.Bytecode.Verifier.{verify, verify_functions, verify_code, max_opcode_for_version}
use lana.Bytecode.Verifier.Verified.{Verified}
use lana.Bytecode.Verifier.Containment.{Reach, verify-contained}
use lana.Bytecode.Encoder.{encode}
use lana.Bytecode.Bytes.{le_bytes, le_value}
use lana.Bytecode.Loader.{
  Utf8, load, load_parts, load_header, load_many, load_constant, load_function, load_instruction,
}
use lana.Bytecode.Loader.Read.{Reader, read_u8, read_le, read_bytes}
use lana.Bytecode.Loader.Reload.{FitsChunk, load-encode}
use lana.Bytecode.Loader.Accepted.{load-Verified}

-- Operations on floats that the runs below do not reach.
abbrev no_floats : F64
no_floats = record {
  is_finite = λ x. true;
  lt = λ x y. false;
  eq = λ x y. x == y;
  add = λ x y. x + y;
  mul = λ x y. x;
  div = λ x y. x;
  sqrt = λ x. x;
}

-- A JSON reader that takes no text for JSON.
abbrev no_json : Serde
no_json = record {
  Json = ℕ;
  from_str = λ s. none;
  to_string = λ j. none;
  get = λ k j. none;
  as_str = λ j. none;
  as_array = λ j. none;
  object_len = λ j. none;
  from_value = λ j. none;
}

-- Every byte sequence is taken for text.
abbrev any_text : Utf8
any_text = record { is_valid = λ bs. true; lossy = λ bs. bs; lossy_valid = λ bs h. refl }

abbrev instr : OpCode → ℕ → ℕ → ℕ → ℕ → Instruction
instr op a b c imm = record { opcode = op; a = a; b = b; c = c; imm = imm; line = 1 }

abbrev function : ℕ → ℕ → Function
function entry registers = record {
  name = b'f' ∷ [];
  entry = entry;
  register_count = registers;
  arity = 0;
}

-- The chunk of the crate's own tests: LOAD_CONST, HALT.
abbrev sample : Chunk
sample = record {
  version = 2;
  entry = 0;
  code = instr OpCode.load_const 0 0 0 0 ∷ instr OpCode.halt 0 0 0 0 ∷ [];
  constants = Value.number 0x4045000000000000 ∷ Value.string (b'h' ∷ b'i' ∷ []) ∷ [];
  functions = function 0 1 ∷ [];
}

-- Two functions of a v6 chunk: a loop, and a body that returns.
abbrev two_bodies : Chunk
two_bodies = record {
  version = 6;
  entry = 0;
  code =
      instr OpCode.jump_if_true 0 0 0 2
      ∷ instr OpCode.jump 0 0 0 0
      ∷ instr OpCode.halt 0 0 0 0
      ∷ instr OpCode.print 0 0 0 0
      ∷ instr OpCode.return 0 0 0 0
      ∷ [];
  constants = [];
  functions = function 3 1 ∷ function 0 2 ∷ [];
}

program : Unit {0}
unfolding verify verify_functions verify_code verify_instruction version_known discriminant
    max_opcode_for_version Objects.verify descriptors names_loop descriptors_loop enumerate
    sort_entries starts_at_zero neighbours_meet some_entry_free regions_loop check_region region_end
    last_before ends_body scan check_instruction has_target refers_to_function is_owned encode load
    load_parts load_header load_many load_constant load_function load_instruction try_from le_bytes
    le_value read_u8 read_le read_bytes
program = tt

sample_verifies : verify no_floats no_json sample ≡ ok tt
unfolding program
sample_verifies = refl

two_bodies-verify : verify no_floats no_json two_bodies ≡ ok tt
unfolding program
two_bodies-verify = refl

sample_loads : load no_floats no_json any_text (encode sample) ≡ ok sample
unfolding program
sample_loads = refl

-- A jump from one body into the other is refused.
crossing_refused :
    verify no_floats no_json (record two_bodies {
      code =
          instr OpCode.jump_if_true 0 0 0 3
          ∷ instr OpCode.jump 0 0 0 0
          ∷ instr OpCode.halt 0 0 0 0
          ∷ instr OpCode.print 0 0 0 0
          ∷ instr OpCode.return 0 0 0 0
          ∷ [];
    })
    ≢ ok tt
unfolding program
crossing_refused h = cc

try_from_iff_example :
    (try_from 89 ≡ some OpCode.oo_as_interface)
    ↔ ((discriminant OpCode.oo_as_interface ≡ 89) × (89 < 90))
try_from_iff_example = try_from_iff 89 OpCode.oo_as_interface

verify_instruction-Accepts_example :
    (verify_instruction no_floats sample (instr OpCode.load_const 7 0 0 1) ≡ ok tt)
    ↔ Accepts no_floats OpCode.load_const sample (instr OpCode.load_const 7 0 0 1)
verify_instruction-Accepts_example =
    verify_instruction-Accepts no_floats sample (instr OpCode.load_const 7 0 0 1)

verify_instruction-ne-panic_example :
    verify_instruction no_floats sample (instr OpCode.fork 0 9 0 0) ≢ panic
verify_instruction-ne-panic_example =
    verify_instruction-ne-panic no_floats sample (instr OpCode.fork 0 9 0 0)

verify-contained_example :
    (end : ℕ) × (3 < end)
    × (end ≤ 5)
    × ((ip : ℕ) → Reach two_bodies 3 ip → (3 ≤ ip) × (ip < end))
    × ((m : ℕ) (g : Function)
        → get_elem? two_bodies.functions m ≡ some g
        → (m ≡ 0) ⊎ ((g.entry < 3) ⊎ (end ≤ g.entry)))
verify-contained_example =
    verify-contained no_floats no_json two_bodies two_bodies-verify refl 0 (function 3 1) refl

sample_fits : FitsChunk any_text sample
unfolding encode le_bytes discriminant
sample_fits = ground arith

load-encode_example : load no_floats no_json any_text (encode sample) ≡ ok sample
load-encode_example = load-encode no_floats no_json any_text sample sample_verifies sample_fits

load-Verified_example :
    (length (encode sample) ≤ 67108864)
    × Verified no_floats no_json sample
    × ((is : List (ℕ × Instruction)) × (reader : Reader) × (load_parts any_text
            (length (encode sample))
            (record { bytes = encode sample; offset = 0 })
          ≡ ok ((sample, is), reader))
        × (reader.offset ≡ length (encode sample)))
load-Verified_example = load-Verified no_floats no_json any_text (encode sample) sample_loads

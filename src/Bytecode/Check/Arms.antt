-- ===== src/Bytecode/Check/Arms.antt =====
-- The arms of `verify_instruction` in vm/rust/lana-bytecode/src/verifier.rs. In the source each
-- check is skipped once `result` is an error, so an arm is a chain that its first error ends.
use lana.Prelude.{
  ℕ, ◌-◌, ◌%◌, ◌^◌, Bool, ◌&&◌, ltb, leb, ◌==◌, length, get_elem?, Result, ◌>>=◌, ◌>>◌, require,
  or_panic, List,
}
use lana.Bytecode.Opcode.{max_registers}
use lana.Bytecode.Error.{LanaError}
use lana.Bytecode.Chunk.{ValueType, value_type, type_code, Chunk}

abbrev pub Check : Type 0
Check = Result LanaError (Unit {0})

-- `len() as u32`
abbrev pub count_u32 {ℓ} : {A : Type ℓ} → List A → ℕ
count_u32 xs = length xs % 2 ^ 32

abbrev pub host_count : ℕ
host_count = 222

unfoldable pub register_valid : ℕ → Bool
register_valid value = ltb value max_registers

unfoldable pub register_range_valid : ℕ → ℕ → Bool
register_range_valid start count = ltb start max_registers && leb count (max_registers - start)

unfoldable pub constant_valid : Chunk → ℕ → Bool
constant_valid chunk value = ltb value (count_u32 chunk.constants)

-- `verify_register`; the message that it also writes is dropped by its caller.
unfoldable pub check : ℕ → Check
unfolding register_valid
check reg = require (register_valid reg) LanaError.register

unfoldable pub check_range : ℕ → ℕ → Check
unfolding register_range_valid
check_range start count = require (register_range_valid start count) LanaError.register

unfoldable pub check_constant : Chunk → ℕ → Check
unfolding constant_valid
check_constant chunk k = require (constant_valid chunk k) LanaError.constant

-- `chunk.constants[k].value_type() != t`
unfoldable pub check_type : Chunk → ℕ → ValueType → Check
unfolding value_type type_code
check_type chunk k t = do
  v ← or_panic (get_elem? chunk.constants k)
  require (type_code (value_type v) == type_code t) LanaError.type

unfoldable pub check_target : Chunk → ℕ → Check
check_target chunk imm = require (ltb imm (count_u32 chunk.code)) LanaError.jump

unfoldable pub check_function : Chunk → ℕ → Check
check_function chunk f = require (ltb f (count_u32 chunk.functions)) LanaError.format

unfoldable pub check_zero : ℕ → Check
check_zero n = require (n == 0) LanaError.format

unfoldable pub check2 : ℕ → ℕ → Check
unfolding check
check2 x y = do check x; check y

unfoldable pub check3 : ℕ → ℕ → ℕ → Check
unfolding check
check3 x y z = do check x; check y; check z

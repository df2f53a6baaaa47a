-- ===== src/Bytecode/Loader/Read.antt =====
-- The `Reader` of vm/rust/lana-bytecode/src/loader.rs, and reading as a monad: a function of the
-- loader gets the reader and returns it advanced, or ends with an error.
use lana.Prelude.{
  ℕ, ◌+◌, Bool, true, false, leb, if◌then◌else◌, Option, some, none, List, length, get_elem?, take,
  drop, Result, ok, err, panic,
}
use Prim.Native.String.{String}
use lana.Bytecode.Error.{LanaError, LanaErrorInfo, Message}
use lana.Bytecode.Bytes.{le_value}

pub record Reader : Type 0 where
  pub bytes : List ℕ
  pub offset : ℕ

unfoldable pub read_u8 : Reader → Option (ℕ × Reader)
read_u8 r = elim (get_elem? r.bytes r.offset) [
  | none ↦ none
  | some value ↦ some (value, record r { offset = r.offset + 1 })
]

-- `bytes.get(offset..offset + length)`
unfoldable pub read_bytes : ℕ → Reader → Option (List ℕ × Reader)
read_bytes len r =
    if leb (r.offset + len) (length r.bytes)
    then some (take len (drop r.offset r.bytes), record r { offset = r.offset + len })
    else none

-- `read_u32` and `read_u64`
unfoldable pub read_le : ℕ → Reader → Option (ℕ × Reader)
unfolding read_bytes
read_le width r = elim (read_bytes width r) [
  | none ↦ none
  | some (slice, r') ↦ some (le_value slice, r')
]

abbrev pub load_error : LanaError → String → LanaErrorInfo
load_error code message = record {
  code = code;
  ip = 0;
  opcode = 0;
  line = 0;
  message = Message.text message;
}

abbrev pub format_error : LanaErrorInfo
format_error = load_error LanaError.format "truncated LABC file"

abbrev pub Load {ℓ} : Type ℓ → Type ℓ
Load A = Reader → Result LanaErrorInfo (A × Reader)

infixl 5 ◌>>=◌ ◌>>◌
abbrev pub ◌>>=◌ {ℓ κ} : {A : Type ℓ} {B : Type κ} → Load A → (A → Load B) → Load B
◌>>=◌ m f r = elim (m r) [ ok (a, r') ↦ f a r' | err e ↦ err e | panic ↦ panic ]

abbrev pub ◌>>◌ {ℓ} : {B : Type ℓ} → Load (Unit {0}) → Load B → Load B
m >> k = m >>= λ _. k

abbrev pub return {ℓ} : {A : Type ℓ} → A → Load A
return a r = ok (a, r)

abbrev pub fail {ℓ} : {A : Type ℓ} → LanaErrorInfo → Load A
fail e r = err e

abbrev pub guard : Bool → LanaErrorInfo → Load (Unit {0})
guard true e = return tt
guard false e = fail e

-- `.ok_or_else(|| format_error(…))?`
abbrev pub or_truncated {ℓ} : {A : Type ℓ} → (Reader → Option (A × Reader)) → Load A
or_truncated p r = elim (p r) [ none ↦ err format_error | some x ↦ ok x ]

unfoldable pub u8 : Load ℕ
u8 = or_truncated read_u8

unfoldable pub u32 : Load ℕ
u32 = or_truncated (read_le 4)

unfoldable pub u64 : Load ℕ
u64 = or_truncated (read_le 8)

unfoldable pub slice : ℕ → Load (List ℕ)
slice len = or_truncated (read_bytes len)

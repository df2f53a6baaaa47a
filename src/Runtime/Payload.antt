-- ===== src/Runtime/Payload.antt =====
-- The payload of a revision in runtime/rust/lana-runtime/src/store.rs: `build_payload`,
-- `parse_payload` and `revision_digest`. The parser's cursor is the list of the bytes after it.
use lana.Prelude.{
  ℕ, zero, suc, ◌+◌, ◌-◌, ◌*◌, ◌/◌, ◌%◌, ◌^◌, Bool, true, false, not, ◌&&◌, ◌||◌, ltb, leb, ◌==◌,
  if◌then◌else◌, List, [], ◌∷◌, ◌++◌, length, take, drop, Result, ok, err, ◌>>=◌, ◌>>◌, require,
}
use lana.Bytecode.Error.{LanaError}
use lana.Bytecode.Objects.Text.{Str, str_eq}
use lana.Bytecode.Loader.{Utf8}
use lana.Runtime.Words.{be_bytes, be_value}
use lana.Runtime.Digest.{sha256}
pub mod Parsing
pub mod Building
pub mod Refused

abbrev pub store_limit : ℕ
store_limit = 256 * 1024 * 1024

pub record Mutation : Type 0 where
  pub key : Str
  pub deleted : Bool
  pub value : List ℕ

-- The length that a mutation adds, `added`.
abbrev pub added_bytes : Mutation → ℕ
added_bytes m = 5 + length m.key + (if m.deleted then 0 else 40) + length m.value

-- What follows the key of a put.
unfoldable pub put_bytes : Mutation → List ℕ
put_bytes m = if m.deleted then [] else sha256 m.value ++ (be_bytes 8 (length m.value) ++ m.value)

unfoldable pub mutation_bytes : Mutation → List ℕ
unfolding put_bytes
mutation_bytes m =
    (if m.deleted then b'D' else b'P')
    ∷ (be_bytes 4 (length m.key % 2 ^ 32) ++ (m.key ++ put_bytes m))

-- `build_payload`, with the payload written so far. A sum of lengths past a `usize` is past the
-- limit too.
unfoldable pub build_from : List ℕ → List Mutation → Result LanaError (List ℕ)
unfolding mutation_bytes
build_from payload [] = ok payload
build_from payload (m ∷ ms) = do
  require (leb (length m.key) (2 ^ 32 - 1)) LanaError.limit
  require (leb (length payload + added_bytes m) store_limit) LanaError.limit
  build_from (payload ++ mutation_bytes m) ms

unfoldable pub build_payload : List Mutation → Result LanaError (List ℕ)
unfolding build_from
build_payload ms = build_from [] ms

unfoldable pub revision_digest : ℕ → ℕ → ℕ → List ℕ → List ℕ
revision_digest revision previous count payload =
    sha256 (be_bytes 8 revision ++ (be_bytes 8 previous ++ (be_bytes 4 count ++ payload)))

-- `&data[cursor..cursor + n]`, checked against the end.
unfoldable pub chunk_of : ℕ → List ℕ → Result LanaError (List ℕ × List ℕ)
chunk_of n rest =
    if leb n (length rest) then ok (take n rest, drop n rest) else err LanaError.corruption

-- `contains(&0)`, for a string `contains('\0')`
unfoldable pub has_nul : List ℕ → Bool
has_nul [] = false
has_nul (b ∷ bs) = (b == 0) || has_nul bs

unfoldable pub parse_tag : List ℕ → Result LanaError (Bool × List ℕ)
parse_tag [] = err LanaError.corruption
parse_tag (t ∷ rest) =
    if t == b'D'
    then ok (true, rest)
    else (if t == b'P' then ok (false, rest) else err LanaError.corruption)

unfoldable pub parse_data : List ℕ → Result LanaError (List ℕ × List ℕ)
unfolding chunk_of has_nul
parse_data rest = do
  (expected, r₁) ← chunk_of 32 rest
  (len, r₂) ← chunk_of 8 r₁
  require (leb (be_value len) store_limit) LanaError.corruption
  (value, r₃) ← chunk_of (be_value len) r₂
  require (not (has_nul value)) LanaError.corruption
  require (str_eq (sha256 value) expected) LanaError.corruption
  ok (value, r₃)

module _ (u : Utf8) where
  unfoldable pub parse_key : List ℕ → Result LanaError (Str × List ℕ)
  unfolding chunk_of has_nul
  parse_key rest = do
    (len, r₁) ← chunk_of 4 rest
    require (not (be_value len == 0)) LanaError.corruption
    (key, r₂) ← chunk_of (be_value len) r₁
    require (u.is_valid key) LanaError.corruption
    require (not (has_nul key)) LanaError.corruption
    ok (key, r₂)

  unfoldable pub parse_mutation : List ℕ → Result LanaError (Mutation × List ℕ)
  unfolding parse_tag parse_key parse_data
  parse_mutation rest = do
    (deleted, r₁) ← parse_tag rest
    (key, r₂) ← parse_key r₁
    (value, r₃) ← if deleted then ok ([], r₂) else parse_data r₂
    ok (record { key = key; deleted = deleted; value = value }, r₃)

  unfoldable pub parse_many : ℕ → List ℕ → Result LanaError (List Mutation × List ℕ)
  unfolding parse_mutation
  parse_many zero rest = ok ([], rest)
  parse_many (suc n) rest = do
    (m, r₁) ← parse_mutation rest
    (ms, r₂) ← parse_many n r₁
    ok (m ∷ ms, r₂)

  -- The reservation of `count` entries is the system allocator's, and is taken for granted.
  unfoldable pub parse_payload : List ℕ → ℕ → Result LanaError (List Mutation)
  unfolding parse_many
  parse_payload bytes count = do
    require (leb count (length bytes / 6)) LanaError.corruption
    (ms, rest) ← parse_many count bytes
    require (length rest == 0) LanaError.corruption
    ok ms

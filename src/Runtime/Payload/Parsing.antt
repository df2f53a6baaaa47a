-- ===== src/Runtime/Payload/Parsing.antt =====
-- Proofs on `parse_payload` of runtime/rust/lana-runtime/src/store.rs over what `build_payload`
-- writes.
use mathlib.Core.List.{append_assoc, append-nil}
use lana.Prelude.{
  ℕ, ◌+◌, ◌*◌, ◌/◌, ◌%◌, ◌^◌, ◌<◌, ◌≤◌, true, false, leb, le→leb, ◌==◌, List, [], ◌∷◌, ◌++◌, length,
  take_append, drop_append, length-append, All, ok, ◌≡◌, refl, sym, subst, arith, Bool-cases, inl,
  inr,
}
use lana.Bytecode.Objects.Text.{str_eq}
use lana.Bytecode.Loader.{Utf8}
use lana.Bytecode.Encoder.{encode_all}
use lana.Runtime.Words.{be_bytes, length-be_bytes, be_value-be_bytes}
use lana.Runtime.Digest.{sha256}
use lana.Runtime.Digest.Stream.{length-sha256}
use lana.Runtime.Payload.{
  Mutation, added_bytes, put_bytes, mutation_bytes, chunk_of, has_nul, parse_tag, parse_data,
  parse_key, parse_mutation, parse_many, parse_payload, store_limit,
}

pub str_eq_self : (xs : List ℕ) → str_eq xs xs ≡ true
unfolding str_eq
str_eq_self [] = refl
str_eq_self (x ∷ xs) = let rest = str_eq_self xs in ground (arith, rest)

-- What a staged mutation is by the source's types and by `stage`, but for the key, which may have a
-- NUL there.
pub record IsClean (u : Utf8) (m : Mutation) : Type 0 where
  pub key_some : 0 < length m.key
  pub key_text : u.is_valid m.key ≡ true
  pub key_nul : has_nul m.key ≡ false
  pub value_nul : has_nul m.value ≡ false
  pub value_deleted : m.deleted ≡ true → m.value ≡ []

-- A clean mutation whose lengths the journal can hold.
pub record FitsMutation (u : Utf8) (m : Mutation) : Type 0 where
  pub clean : IsClean u m
  pub key_short : length m.key < 2 ^ 32
  pub value_short : length m.value ≤ store_limit

pub chunk_of-append :
    (xs rest : List ℕ) (n : ℕ) → n ≡ length xs → chunk_of n (xs ++ rest) ≡ ok (xs, rest)
unfolding chunk_of
chunk_of-append xs rest n e =
    let fits : leb (length xs) (length (xs ++ rest)) ≡ true =
      le→leb _ _ (omega (arith, length-append xs rest)) in
    rw (e, fits, take_append xs rest, drop_append xs rest)

parse_data-put :
    (value rest : List ℕ)
    → length value ≤ store_limit
    → has_nul value ≡ false
    → parse_data (sha256 value ++ (be_bytes 8 (length value) ++ (value ++ rest))) ≡ ok (value, rest)
unfolding parse_data
parse_data-put value rest short nul =
    let width = be_value-be_bytes 8 (length value) (omega (arith, short)) in
    let fits = le→leb (length value) store_limit short in
    rw (
      chunk_of-append (sha256 value) (be_bytes 8 (length value) ++ (value ++ rest)) 32
          (sym (length-sha256 value)),
      chunk_of-append (be_bytes 8 (length value)) (value ++ rest) 8
          (sym (length-be_bytes 8 (length value))),
      width,
      fits,
      chunk_of-append value rest (length value) refl,
      nul,
      str_eq_self (sha256 value),
    )

key_size :
    (m : Mutation) (tail : List ℕ)
    → length (be_bytes 4 (length m.key % 2 ^ 32) ++ (m.key ++ tail))
      ≡ 4 + length m.key + length tail
key_size m tail = omega (
  arith,
  length-append (be_bytes 4 (length m.key % 2 ^ 32)) (m.key ++ tail),
  length-append m.key tail,
  length-be_bytes 4 (length m.key % 2 ^ 32),
)

pub length-mutation_bytes : (m : Mutation) → length (mutation_bytes m) ≤ added_bytes m
unfolding mutation_bytes put_bytes
length-mutation_bytes m = elim (Bool-cases m.deleted) [
  | inl gone ↦ rw gone (omega (arith, key_size m []))
  | inr put ↦ rw put (
      omega (
        arith,
        key_size m (sha256 m.value ++ (be_bytes 8 (length m.value) ++ m.value)),
        length-append (sha256 m.value) (be_bytes 8 (length m.value) ++ m.value),
        length-append (be_bytes 8 (length m.value)) m.value,
        length-be_bytes 8 (length m.value),
        length-sha256 m.value,
      ))
]

module _ (u : Utf8) where
  parse_key-append :
      (key rest : List ℕ)
      → 0 < length key
      → length key < 2 ^ 32
      → u.is_valid key ≡ true
      → has_nul key ≡ false
      → parse_key u (be_bytes 4 (length key % 2 ^ 32) ++ (key ++ rest)) ≡ ok (key, rest)
  unfolding parse_key
  parse_key-append key rest some_bytes short text nul =
      let same : length key % 2 ^ 32 ≡ length key = omega arith in
      let width = be_value-be_bytes 4 (length key) short in
      let filled : (length key == 0) ≡ false = ground arith in
      rw (
        same,
        chunk_of-append (be_bytes 4 (length key)) (key ++ rest) 4
            (sym (length-be_bytes 4 (length key))),
        width,
        filled,
        chunk_of-append key rest (length key) refl,
        text,
        nul,
      )

  pub parse_mutation-append :
      (m : Mutation) (rest : List ℕ)
      → FitsMutation u m
      → parse_mutation u (mutation_bytes m ++ rest) ≡ ok (m, rest)
  unfolding parse_mutation mutation_bytes put_bytes parse_tag
  parse_mutation-append m rest f = elim (Bool-cases m.deleted) [
    | inl gone ↦
        let key =
          parse_key-append m.key rest f.clean.key_some f.key_short f.clean.key_text
            f.clean.key_nul in
        rw (gone, append_assoc, append_assoc, key, f.clean.value_deleted gone)
    | inr put ↦
        let tail = sha256 m.value ++ (be_bytes 8 (length m.value) ++ (m.value ++ rest)) in
        let key =
          parse_key-append m.key tail f.clean.key_some f.key_short f.clean.key_text
            f.clean.key_nul in
        rw (
          put,
          append_assoc,
          append_assoc,
          append_assoc,
          append_assoc,
          key,
          parse_data-put m.value rest f.value_short f.clean.value_nul,
        )
  ]

  parse_many-append :
      (ms : List Mutation) (rest : List ℕ)
      → All (FitsMutation u) ms
      → parse_many u (length ms) (encode_all mutation_bytes ms ++ rest) ≡ ok (ms, rest)
  unfolding parse_many encode_all
  parse_many-append [] rest f = refl
  parse_many-append (m ∷ ms) rest f = rw (
    append_assoc,
    parse_mutation-append m (encode_all mutation_bytes ms ++ rest) f.0,
    parse_many-append ms rest f.1,
  )

  mutation_size : (m : Mutation) → FitsMutation u m → 6 ≤ length (mutation_bytes m)
  unfolding mutation_bytes
  mutation_size m f = omega (
    arith,
    length-append (be_bytes 4 (length m.key % 2 ^ 32)) (m.key ++ put_bytes m),
    length-append m.key (put_bytes m),
    length-be_bytes 4 (length m.key % 2 ^ 32),
    f.clean.key_some,
  )

  payload_size :
      (ms : List Mutation)
      → All (FitsMutation u) ms
      → length ms * 6 ≤ length (encode_all mutation_bytes ms)
  unfolding encode_all
  payload_size [] f = omega arith
  payload_size (m ∷ ms) f = omega (
    arith,
    length-append (mutation_bytes m) (encode_all mutation_bytes ms),
    mutation_size m f.0,
    payload_size ms f.1,
  )

  pub parse_payload-encoded :
      (ms : List Mutation)
      → All (FitsMutation u) ms
      → parse_payload u (encode_all mutation_bytes ms) (length ms) ≡ ok ms
  unfolding parse_payload
  parse_payload-encoded ms f =
      let whole = encode_all mutation_bytes ms in
      let count : leb (length ms) (length whole / 6) ≡ true =
        le→leb _ _ (omega (arith, payload_size ms f)) in
      let parsed : parse_many u (length ms) whole ≡ ok (ms, []) =
        subst (λ l. parse_many u (length ms) l ≡ ok (ms, [])) (append-nil whole)
          (parse_many-append ms [] f) in
      rw (count, parsed)

-- What `build_payload` writes, where it writes anything: the mutations one after the other, in no
-- more than the limit.

-- ===== src/Runtime/Payload/Refused.antt =====
-- Proofs on keys with a NUL in runtime/rust/lana-runtime/src/store.rs.
use mathlib.Core.List.{append_assoc}
use lana.Prelude.{
  ℕ, ◌%◌, ◌/◌, ◌^◌, ◌<◌, true, false, leb, ◌==◌, List, [], ◌∷◌, ◌++◌, length, All, err, ◌≡◌, refl,
  sym, arith, Bool-cases, inl, inr,
}
use lana.Bytecode.Error.{LanaError}
use lana.Bytecode.Loader.{Utf8}
use lana.Bytecode.Encoder.{encode_all}
use lana.Runtime.Words.{be_bytes, length-be_bytes, be_value-be_bytes}
use lana.Runtime.Digest.{sha256}
use lana.Runtime.Payload.{
  Mutation, put_bytes, mutation_bytes, has_nul, parse_tag, parse_key, parse_mutation, parse_many,
  parse_payload,
}
use lana.Runtime.Payload.Parsing.{FitsMutation, chunk_of-append, parse_mutation-append}

-- A mutation whose key is a text with a NUL.
pub record HasNulKey (u : Utf8) (m : Mutation) : Type 0 where
  pub key_some : 0 < length m.key
  pub key_short : length m.key < 2 ^ 32
  pub key_text : u.is_valid m.key ≡ true
  pub key_nul : has_nul m.key ≡ true

module _ (u : Utf8) (m : Mutation) (f : HasNulKey u m) where
  parse_key-nul :
      (rest : List ℕ)
      → parse_key u (be_bytes 4 (length m.key % 2 ^ 32) ++ (m.key ++ rest))
        ≡ err LanaError.corruption
  unfolding parse_key
  parse_key-nul rest =
      let short = f.key_short in
      let same : length m.key % 2 ^ 32 ≡ length m.key = omega arith in
      let width = be_value-be_bytes 4 (length m.key) short in
      let some_bytes = f.key_some in
      let filled : (length m.key == 0) ≡ false = ground arith in
      rw (
        same,
        chunk_of-append (be_bytes 4 (length m.key)) (m.key ++ rest) 4
            (sym (length-be_bytes 4 (length m.key))),
        width,
        filled,
        chunk_of-append m.key rest (length m.key) refl,
        f.key_text,
        f.key_nul,
      )

  parse_mutation-nul :
      (rest : List ℕ) → parse_mutation u (mutation_bytes m ++ rest) ≡ err LanaError.corruption
  unfolding parse_mutation mutation_bytes put_bytes parse_tag
  parse_mutation-nul rest = elim (Bool-cases m.deleted) [
    | inl gone ↦ rw (gone, append_assoc, append_assoc, parse_key-nul rest)
    | inr put ↦
        let tail = sha256 m.value ++ (be_bytes 8 (length m.value) ++ (m.value ++ rest)) in
        rw (put, append_assoc, append_assoc, append_assoc, append_assoc, parse_key-nul tail)
  ]

  parse_many-nul :
      (front back : List Mutation)
      → All (FitsMutation u) front
      → parse_many u
          (length (front ++ (m ∷ back)))
          (encode_all mutation_bytes (front ++ (m ∷ back)))
        ≡ err LanaError.corruption
  unfolding parse_many encode_all
  parse_many-nul [] back fits = rw (parse_mutation-nul (encode_all mutation_bytes back))
  parse_many-nul (q ∷ front) back (fit, fits) = rw (
    parse_mutation-append u q (encode_all mutation_bytes (front ++ (m ∷ back))) fit,
    parse_many-nul front back fits,
  )

  pub parse_payload-nul :
      (front back : List Mutation)
      → All (FitsMutation u) front
      → parse_payload u
          (encode_all mutation_bytes (front ++ (m ∷ back)))
          (length (front ++ (m ∷ back)))
        ≡ err LanaError.corruption
  unfolding parse_payload
  parse_payload-nul front back fits =
      let ms = front ++ (m ∷ back) in
      elim (Bool-cases (leb (length ms) (length (encode_all mutation_bytes ms) / 6))) [
        | inl room ↦ rw (room, parse_many-nul front back fits)
        | inr full ↦ rw full
      ]

-- ===== src/Runtime/Journal/Records.antt =====
-- Proofs on `replay` of runtime/rust/lana-runtime/src/store.rs over the records that `store_commit`
-- writes.
use lana.Prelude.{
  ℕ, ◌+◌, ◌^◌, ◌<◌, ◌≤◌, List, [], ◌∷◌, length, ◌≡◌, refl, ap, sym, subst, ◌∙◌, arith, some,
  get_elem?,
}
use lana.Bytecode.Objects.Text.{lit}
use lana.Runtime.Words.{be_bytes, be_value, length-be_bytes, be_value-be_bytes, slice}
use lana.Runtime.Digest.Stream.{length-sha256}
use lana.Runtime.Payload.{revision_digest, store_limit}
use lana.Runtime.Store.{Raw, record_size, raw_of}
use lana.Runtime.Journal.{record_bytes}
use lana.Runtime.Journal.Pieces.{join, offset, slice-piece, length-join}

module _ (revision previous count : ℕ) (payload : List ℕ) where
  abbrev pub digest : List ℕ
  digest = revision_digest revision previous count payload

  abbrev pieces : List (List ℕ)
  pieces =
      lit "LREV"
      ∷ be_bytes 8 revision
      ∷ be_bytes 8 previous
      ∷ be_bytes 4 count
      ∷ be_bytes 8 (length payload)
      ∷ digest
      ∷ payload
      ∷ lit "LCMT"
      ∷ be_bytes 8 revision
      ∷ digest
      ∷ []

  abbrev pub whole_record : List ℕ
  whole_record = record_bytes revision previous count payload

  record_bytes-join : whole_record ≡ join pieces
  unfolding record_bytes
  record_bytes-join = refl

  length-digest : length digest ≡ 32
  unfolding revision_digest
  length-digest = length-sha256 _

  pub length-record_bytes : length whole_record ≡ record_size (length payload)
  length-record_bytes = omega (
    arith,
    length-join pieces,
    length-be_bytes 8 revision,
    length-be_bytes 8 previous,
    length-be_bytes 4 count,
    length-be_bytes 8 (length payload),
    length-digest,
    ap length record_bytes-join,
  )

  -- A piece of the record, at its place.
  pub field :
      (i : ℕ) (p : List ℕ) (j k : ℕ)
      → get_elem? pieces i ≡ some p
      → j ≡ offset pieces i
      → k ≡ length p
      → slice j k whole_record ≡ p
  field i p j k h e f =
      subst (λ l. slice j k l ≡ p) (sym record_bytes-join) (slice-piece pieces i p j k h e f)

  -- The record as it is read back.
  abbrev pub raw : Raw
  raw = record {
    revision = revision;
    previous = previous;
    count = count;
    digest = digest;
    payload = payload;
    magic = lit "LCMT";
    commit_revision = revision;
    commit_digest = digest;
  }

  module _ (revision_small : revision < 2 ^ 64) (previous_small : previous < 2 ^ 64)
      (count_small : count < 2 ^ 32) (payload_small : length payload ≤ store_limit) where
    pub raw_of-record_bytes : raw_of whole_record (length payload) ≡ raw
    unfolding raw_of
    raw_of-record_bytes =
        let l1 = length-be_bytes 8 revision in
        let l2 = length-be_bytes 8 previous in
        let l3 = length-be_bytes 4 count in
        let l4 = length-be_bytes 8 (length payload) in
        let l5 = length-digest in
        let v1 =
          ap be_value (field 1 (be_bytes 8 revision) 4 8 refl refl (sym l1))
          ∙ be_value-be_bytes 8 revision revision_small in
        let v2 =
          ap be_value (field 2 (be_bytes 8 previous) 12 8 refl (omega (arith, l1)) (sym l2))
          ∙ be_value-be_bytes 8 previous previous_small in
        let v3 =
          ap be_value (field 3 (be_bytes 4 count) 20 4 refl (omega (arith, l1, l2)) (sym l3))
          ∙ be_value-be_bytes 4 count count_small in
        let v5 = field 5 digest 32 32 refl (omega (arith, l1, l2, l3, l4)) (sym l5) in
        let v6 =
          field 6 payload 64 (length payload) refl (omega (arith, l1, l2, l3, l4, l5)) refl in
        let v7 =
          field 7 (lit "LCMT") (64 + length payload) 4 refl (omega (arith, l1, l2, l3, l4, l5))
            refl in
        let v8 =
          ap be_value (
            field 8 (be_bytes 8 revision) (68 + length payload) 8 refl
              (omega (arith, l1, l2, l3, l4, l5)) (sym l1))
          ∙ be_value-be_bytes 8 revision revision_small in
        let v9 =
          field 9 digest (76 + length payload) 32 refl (omega (arith, l1, l2, l3, l4, l5))
            (sym l5) in
        λ i. record {
          revision = v1 i;
          previous = v2 i;
          count = v3 i;
          digest = v5 i;
          payload = v6 i;
          magic = v7 i;
          commit_revision = v8 i;
          commit_digest = v9 i;
        }

    pub magic_at : slice 0 4 whole_record ≡ lit "LREV"
    magic_at = field 0 (lit "LREV") 0 4 refl refl refl

    pub length_at : be_value (slice 24 8 whole_record) ≡ length payload
    length_at =
        let l1 = length-be_bytes 8 revision in
        let l2 = length-be_bytes 8 previous in
        let l3 = length-be_bytes 4 count in
        let l4 = length-be_bytes 8 (length payload) in
        ap be_value
          (field 4 (be_bytes 8 (length payload)) 24 8 refl (omega (arith, l1, l2, l3)) (sym l4))
        ∙ be_value-be_bytes 8 (length payload) (omega (arith, payload_small))

-- ===== src/Runtime/Journal/Reading.antt =====
-- What a round of `replay` of runtime/rust/lana-runtime/src/store.rs finds at a record, whole or
-- broken off.
use lana.Prelude.{
  ℕ, ◌+◌, ◌^◌, ◌<◌, ◌≤◌, false, ltb, leb, le→leb, List, ◌++◌, length, take, drop, drop_append,
  length-append, ◌≡◌, ◌⊎◌, inl, inr, ap, subst, ◌∙◌, arith, Bool-cases,
}
use lana.Runtime.Words.{be_value, slice, slice-take, slice-prefix, length-take}
use lana.Runtime.Payload.{store_limit}
use lana.Runtime.Store.{Read, record_size, raw_of, read_body, read_record}
use lana.Runtime.Journal.Records.{
  whole_record, raw, length-record_bytes, raw_of-record_bytes, magic_at, length_at,
}

-- Two strings have the same pieces up to `n`.
abbrev Agree : ℕ → List ℕ → List ℕ → Type 0
Agree n xs ys = (j k : ℕ) → j + k ≤ n → slice j k xs ≡ slice j k ys

raw_of-Agree :
    (n len : ℕ) (xs ys : List ℕ)
    → record_size len ≤ n
    → Agree n xs ys
    → raw_of xs len ≡ raw_of ys len
unfolding raw_of
raw_of-Agree n len xs ys h a = λ i. record {
  revision = be_value (a 4 8 (omega arith) i);
  previous = be_value (a 12 8 (omega arith) i);
  count = be_value (a 20 4 (omega arith) i);
  digest = a 32 32 (omega arith) i;
  payload = a 64 len (omega arith) i;
  magic = a (64 + len) 4 (omega arith) i;
  commit_revision = be_value (a (68 + len) 8 (omega arith) i);
  commit_digest = a (76 + len) 32 (omega arith) i;
}

module _ (revision previous count : ℕ) (payload : List ℕ) (revision_small : revision < 2 ^ 64)
    (previous_small : previous < 2 ^ 64) (count_small : count < 2 ^ 32)
    (payload_small : length payload ≤ store_limit) where
  abbrev full : List ℕ
  full = whole_record revision previous count payload

  size : length full ≡ 64 + length payload + 44
  size = length-record_bytes revision previous count payload

  read_body-whole :
      (xs after : List ℕ)
      → Agree (length full) xs full
      → length full ≤ length xs
      → drop (64 + length payload + 44) xs ≡ after
      → read_body xs ≡ Read.whole (raw revision previous count payload) after
  unfolding read_body
  read_body-whole xs after a long rest =
      let len =
        ap be_value (a 24 8 (omega (arith, size)))
        ∙ length_at revision previous count payload revision_small previous_small count_small
            payload_small in
      let c1 = le→leb 64 (length xs) (omega (arith, size)) in
      let c2 : ltb store_limit (length payload) ≡ false = ground (arith, payload_small) in
      let c3 = le→leb (64 + length payload) (length xs) (omega (arith, size)) in
      let c4 = le→leb (68 + length payload) (length xs) (omega (arith, size)) in
      let c5 = le→leb (64 + length payload + 44) (length xs) (omega (arith, size)) in
      let same =
        raw_of-Agree (length full) (length payload) xs full (omega (arith, size)) a
        ∙ raw_of-record_bytes revision previous count payload revision_small previous_small
            count_small payload_small in
      rw (len, c1, c2, c3, c4, c5, same, rest)

  pub read_record-whole :
      (rest : List ℕ)
      → read_record (full ++ rest) ≡ Read.whole (raw revision previous count payload) rest
  unfolding read_record
  read_record-whole rest =
      let a : Agree (length full) (full ++ rest) full = λ j k h. slice-prefix j k full rest h in
      let longer = length-append full rest in
      let c = le→leb 4 (length (full ++ rest)) (omega (arith, size, longer)) in
      let mark =
        a 0 4 (omega (arith, size))
        ∙ magic_at revision previous count payload revision_small previous_small count_small
            payload_small in
      let after = subst (λ n. drop n (full ++ rest) ≡ rest) size (drop_append full rest) in
      rw (c, mark, read_body-whole (full ++ rest) rest a (omega (arith, longer)) after)

  read_body-torn : (n : ℕ) → n < length full → 4 ≤ n → read_body (take n full) ≡ Read.torn
  unfolding read_body
  read_body-torn n less more =
      let xs = take n full in
      let long = length-take n full (omega arith) in
      elim (Bool-cases (leb 64 (length xs))) [
        | inr short ↦ rw short
        | inl past ↦
            let len =
              ap be_value (slice-take 24 8 n full (ground (arith, long)))
              ∙ length_at revision previous count payload revision_small previous_small count_small
                  payload_small in
            let c2 : ltb store_limit (length payload) ≡ false = ground (arith, payload_small) in
            let short : leb (64 + length payload + 44) (length xs) ≡ false =
              ground (arith, long, size) in
            rw (len, past, c2) (ground (arith, short))
      ]

  -- A record that breaks off is not read as one.
  pub read_record-broken :
      (n : ℕ)
      → n < length full
      → (read_record (take n full) ≡ Read.finished) ⊎ (read_record (take n full) ≡ Read.torn)
  unfolding read_record
  read_record-broken n less =
      let xs = take n full in
      let long = length-take n full (omega arith) in
      elim (Bool-cases (leb 4 (length xs))) [
        | inr short ↦ inl (rw short)
        | inl past ↦
            let four : 4 ≤ n = ground (arith, long) in
            let mark =
              slice-take 0 4 n full four
              ∙ magic_at revision previous count payload revision_small previous_small count_small
                  payload_small in
            inr (rw (past, mark, read_body-torn n less four))
      ]

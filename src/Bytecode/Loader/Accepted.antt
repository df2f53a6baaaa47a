-- ===== src/Bytecode/Loader/Accepted.antt =====
-- What a successful load says of the bytes and of the chunk.
use lana.Prelude.{
  ℕ, ◌≤◌, List, length, ◌≡◌, leb, leb→le, ok, err, panic, Result, arith, Bool-cases, inl, inr,
}
use lana.Bytecode.Error.{LanaErrorInfo}
use lana.Bytecode.Float.{F64}
use lana.Bytecode.Chunk.{Chunk, Instruction}
use lana.Bytecode.Objects.Descriptor.{Serde}
use lana.Bytecode.Verifier.{verify}
use lana.Bytecode.Verifier.Verified.{Verified, verify-Verified}
use lana.Bytecode.Loader.{Utf8, max_chunk_size, load_parts, load_checked, load}
use lana.Bytecode.Loader.Read.{Reader}

module _ (fl : F64) (sd : Serde) where
  checked-verifies :
      (bytes : List ℕ) (r : Result LanaErrorInfo ((Chunk × List (ℕ × Instruction)) × Reader))
      {chunk : Chunk}
      → load_checked fl sd bytes r ≡ ok chunk
      → (is : List (ℕ × Instruction)) × (reader : Reader) × (r ≡ ok ((chunk, is), reader))
        × (reader.offset ≡ length bytes)
        × (verify fl sd chunk ≡ ok tt)
  unfolding load_checked
  checked-verifies bytes (err e) h = cc
  checked-verifies bytes panic h = cc
  checked-verifies bytes (ok ((chunk, is), reader)) h =
      (is, reader, ground arith, ground arith, ground arith)

  load-eq-ok :
      (u : Utf8) (bytes : List ℕ) {chunk : Chunk}
      → load fl sd u bytes ≡ ok chunk
      → (length bytes ≤ max_chunk_size)
        × (load_checked fl sd bytes
              (load_parts u (length bytes) (record { bytes = bytes; offset = 0 }))
            ≡ ok chunk)
  unfolding load
  load-eq-ok u bytes h = elim (Bool-cases (leb (length bytes) max_chunk_size)) [
    | inl fits ↦ (leb→le _ _ fits, rw fits at h)
    | inr large ↦ absurd (ground arith)
  ]

  -- A load that succeeds was given at most 64 MiB, read all of them, and returns a chunk that is
  -- well formed.
  pub load-Verified :
      (u : Utf8) (bytes : List ℕ) {chunk : Chunk}
      → load fl sd u bytes ≡ ok chunk
      → (length bytes ≤ max_chunk_size)
        × Verified fl sd chunk
        × ((is : List (ℕ × Instruction)) × (reader : Reader) × (load_parts u
                (length bytes)
                (record { bytes = bytes; offset = 0 })
              ≡ ok ((chunk, is), reader))
            × (reader.offset ≡ length bytes))
  load-Verified u bytes {chunk} h =
      let (fits, checked) = load-eq-ok u bytes h in
      let (is, reader, read, whole, passed) = checked-verifies bytes _ checked in
      (fits, (verify-Verified fl sd chunk).0 passed, (is, reader, read, whole))

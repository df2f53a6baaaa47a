-- ===== src/Runtime/Journal/Unreadable.antt =====
-- Proofs on a key with a NUL in runtime/rust/lana-runtime/src/store.rs, from `stage` through
-- `store_commit` to `open_with_outcome`.
use lana.Prelude.{ℕ, ◌+◌, ◌-◌, ◌^◌, ◌<◌, ◌≤◌, some, List, [], ◌∷◌, ◌++◌, length, take, ok, ◌≡◌}
use lana.Bytecode.Loader.{Utf8}
use lana.Bytecode.Encoder.{encode_all}
use lana.Runtime.Payload.{Mutation, added_bytes, mutation_bytes, store_limit}
use lana.Runtime.Payload.Refused.{HasNulKey}
use lana.Runtime.Store.{Store, Revision}
use lana.Runtime.Journal.{Disk, RevisionInfo, Outcome, record_bytes}
use lana.Runtime.Journal.Chain.{Chain}
use lana.Runtime.Journal.Durable.{IsDurable}

-- The record of a revision with one mutation.
abbrev one_record : ℕ → Mutation → List ℕ
one_record previous m = record_bytes (previous + 1) previous 1 (encode_all mutation_bytes (m ∷ []))

module _ (u : Utf8) (s : Store) (d : Disk) (revs : List Revision) (w : IsDurable u s d revs)
    (m : Mutation) (f : HasNulKey u m) (fits : added_bytes m ≤ store_limit)
    (room : s.current_rev < 2 ^ 64 - 1)
    (space : s.journal_offset + length (one_record s.current_rev m) < 2 ^ 64) where
  abbrev before : Store
  before = record s { staged = m ∷ [] }

  -- The disk after the commit.
  abbrev after : Disk
  after = record {
    journal = take s.journal_offset d.journal ++ one_record s.current_rev m;
    manifest = some (record {
      current = s.current_rev + 1;
      snapshot = s.snapshot_rev;
      retention = s.retention_boundary;
    });
  }

  -- The commit goes through.
  abbrev Commits : Outcome RevisionInfo → Type 0
  Commits (s', d', answer) = (d' ≡ after) × (info : RevisionInfo) × (answer ≡ ok info)

-- ===== src/Runtime/Journal.antt =====
-- Writing in runtime/rust/lana-runtime/src/store.rs: staging, `store_commit`, the manifest and
-- `open_with_outcome`. The disk is the journal file's bytes and the manifest's numbers; what the
-- system does with a write is an argument.
use lana.Prelude.{
  ℕ, zero, suc, ◌+◌, ◌-◌, ◌%◌, ◌^◌, Bool, true, false, not, ◌&&◌, ◌||◌, ltb, leb, ◌==◌,
  if◌then◌else◌, Option, none, some, List, [], ◌∷◌, ◌++◌, length, take, drop, replicate, Result, ok,
  err, panic, ◌>>=◌, ◌>>◌, require,
}
use lana.Bytecode.Error.{LanaError}
use lana.Bytecode.Objects.Text.{Str, lit}
use lana.Bytecode.Loader.{Utf8}
use lana.Runtime.Words.{be_bytes}
use lana.Runtime.Payload.{Mutation, build_payload, revision_digest}
use lana.Runtime.Store.{Store, Revision, apply_all, replay}
pub mod Pieces
pub mod Records
pub mod Reading
pub mod Chain
pub mod Replay
pub mod Durable
pub mod Writing
pub mod Commit
pub mod Opening
pub mod Unreadable
pub mod History
pub mod Rounds

-- The numbers of the file `manifest`.
pub record Manifest : Type 0 where
  pub current : ℕ
  pub snapshot : ℕ
  pub retention : ℕ

pub record Disk : Type 0 where
  pub journal : List ℕ
  pub manifest : Option Manifest

-- How the writes to the journal go: through to the last sync; with the first call refused, so that
-- the file stays; or broken off after a number of the record's bytes. The Boolean of a failure is
-- whether the rollback goes through, where the source tries one.
pub data Write : Type 0 where
  through : Write
  refused : Bool → Write
  broken : ℕ → Bool → Write

-- How the atomic replacement of a file goes: done; or failed, with whether the failure is
-- uncertain and whether the new file is there.
pub data Replace : Type 0 where
  replaced : Replace
  failed : Bool → Bool → Replace

pub record RevisionInfo : Type 0 where
  pub revision_id : ℕ
  pub schema_version : ℕ
  pub timestamp : ℕ
  pub digest : List ℕ

-- The store and the disk after a call, and its result.
abbrev pub Outcome {ℓ} : Type ℓ → Type ℓ
Outcome A = Store × Disk × Result LanaError A

-- `fail_io`
unfoldable pub fail_io : Bool → Store → Store
fail_io uncertain s =
    if uncertain
    then record s { io_failure = some true; journal = false; staged = [] }
    else record s { io_failure = some false }

unfoldable pub manifest_of : Store → Manifest
manifest_of s = record {
  current = s.current_rev;
  snapshot = s.snapshot_rev;
  retention = s.retention_boundary;
}

unfoldable pub write_manifest : Replace → Store → Disk → Outcome (Unit {0})
unfolding fail_io manifest_of
write_manifest Replace.replaced s d = (s, record d { manifest = some (manifest_of s) }, ok tt)
write_manifest (Replace.failed uncertain visible) s d = (
  fail_io uncertain s,
  if visible then record d { manifest = some (manifest_of s) } else d,
  err LanaError.io,
)

-- `stage`, of a value that `encode_value` has written as `value`, or of a deletion.
unfoldable pub stage : Str → Option (List ℕ) → Store → Store × Result LanaError (Unit {0})
stage key value s =
    if not s.journal
    then (s, err LanaError.invalid_state)
    else (if length key == 0 then (s, err LanaError.key) else elim value [
      | none ↦ (
        record s { staged = s.staged ++ (record { key = key; deleted = true; value = [] } ∷ []) },
        ok tt,
      )
      | some bytes ↦ (
        record s {
          staged = s.staged ++ (record { key = key; deleted = false; value = bytes } ∷ []);
        },
        ok tt,
      )
    ])

-- The record of a revision: header, payload, commit mark and trailer.
unfoldable pub record_bytes : ℕ → ℕ → ℕ → List ℕ → List ℕ
unfolding revision_digest be_bytes
record_bytes revision previous count payload =
    let digest = revision_digest revision previous count payload in
    lit "LREV"
    ++ (be_bytes 8 revision
        ++ (be_bytes 8 previous
            ++ (be_bytes 4 count
                ++ (be_bytes 8 (length payload)
                    ++ (digest ++ (payload ++ (lit "LCMT" ++ (be_bytes 8 revision ++ digest))))))))

-- The store after its record has reached the journal.
unfoldable pub publish : ℕ → List ℕ → ℕ → Store → Store
unfolding apply_all
publish revision digest end s = record s {
  revisions = s.revisions ++ (record { id = revision; mutations = s.staged; digest = digest } ∷ []);
  index = apply_all s.staged s.index;
  current_rev = revision;
  journal_offset = end;
  staged = [];
}

-- A failure of the last manifest write is uncertain, whatever it was.
unfoldable pub acknowledge : RevisionInfo → Outcome (Unit {0}) → Outcome RevisionInfo
unfolding fail_io
acknowledge info (s, d, ok _) = (s, d, ok info)
acknowledge info (s, d, failure) = (fail_io true s, d, err LanaError.io)

-- The file after a write that broke off: with `whole`, all the bytes are there, and nothing is
-- rolled back.
unfoldable pub broken_write : ℕ → Bool → List ℕ → Store → Disk → Store × Disk
unfolding fail_io
broken_write n rollback bytes s d =
    let kept = take s.journal_offset d.journal in
    let whole = leb (length bytes) n in
    if not whole && rollback
    then (fail_io false s, record d { journal = kept })
    else (fail_io true s, record d { journal = kept ++ take n bytes })

unfoldable pub write_record :
    Write → Replace → RevisionInfo → List ℕ → Store → Disk → Outcome RevisionInfo
unfolding publish acknowledge write_manifest broken_write fail_io
write_record Write.through swap info bytes s d =
    let s₁ = publish info.revision_id info.digest (s.journal_offset + length bytes) s in
    acknowledge info
      (write_manifest swap s₁ (record d { journal = take s.journal_offset d.journal ++ bytes }))
write_record (Write.refused rollback) swap info bytes s d =
    if rollback
    then (fail_io false s, record d { journal = take s.journal_offset d.journal }, err LanaError.io)
    else (fail_io true s, d, err LanaError.io)
write_record (Write.broken n rollback) swap info bytes s d =
    let (s₁, d₁) = broken_write n rollback bytes s d in (s₁, d₁, err LanaError.io)

abbrev info_of : ℕ → List ℕ → RevisionInfo
info_of revision digest = record {
  revision_id = revision;
  schema_version = 1;
  timestamp = 0;
  digest = digest;
}

-- `store_commit` after its checks, with the payload built.
unfoldable pub commit_payload : Write → Replace → List ℕ → Store → Disk → Outcome RevisionInfo
unfolding write_record record_bytes
commit_payload write swap payload s d =
    let revision = s.current_rev + 1 in
    let count = length s.staged % 2 ^ 32 in
    let bytes = record_bytes revision s.current_rev count payload in
    if not (ltb s.current_rev (2 ^ 64 - 1))
    then (s, d, err LanaError.limit)
    else (if not (ltb (s.journal_offset + length bytes) (2 ^ 64))
        then (record s { io_failure = none }, d, err LanaError.limit)
        else write_record write swap
            (info_of revision (revision_digest revision s.current_rev count payload)) bytes
            (record s { io_failure = none }) d)

unfoldable pub commit_built :
    Write → Replace → Store → Disk → Result LanaError (List ℕ) → Outcome RevisionInfo
unfolding commit_payload
commit_built write swap s d (ok payload) = commit_payload write swap payload s d
commit_built write swap s d (err e) = (s, d, err e)
commit_built write swap s d panic = (s, d, panic)

unfoldable pub store_commit : Write → Replace → Store → Disk → Outcome RevisionInfo
unfolding commit_built
store_commit write swap s d =
    if not s.journal
    then (s, d, err LanaError.invalid_state)
    else (if length s.staged == 0
        then (s, d, err LanaError.unsupported_operation)
        else commit_built write swap s d (build_payload s.staged))

-- A store whose journal was just opened.
unfoldable pub opened : Option Manifest → Store
opened manifest = record {
  index = [];
  staged = [];
  revisions = [];
  current_rev = 0;
  snapshot_rev = elim manifest [ none ↦ 0 | some m ↦ m.snapshot ];
  retention_boundary = elim manifest [ none ↦ 0 | some m ↦ m.retention ];
  journal = true;
  journal_offset = 0;
  io_failure = none;
}

-- `read_manifest` after the file was read: the acknowledged revision.
unfoldable pub read_manifest : Option Manifest → Result LanaError ℕ
read_manifest none = ok 0
read_manifest (some m) = do
  require (not (ltb m.current m.snapshot || ltb m.current m.retention)) LanaError.corruption
  ok m.current

-- The end of `open_with_outcome`, from the replay on.
unfoldable pub finish_open :
    Replace → ℕ → Result LanaError Store → Disk → Result LanaError (Store × Disk)
unfolding write_manifest
finish_open swap acknowledged replayed d = do
  s ← replayed
  require (not (ltb s.current_rev acknowledged)) LanaError.corruption
  let (s₁, d₁, answer) = write_manifest swap s d
  answer
  ok (s₁, d₁)

-- `open_with_outcome` from `read_manifest` on, with the journal opened and locked. `load_snapshot`
-- is an argument.
unfoldable pub open_disk :
    Utf8 → (Store → Result LanaError Store) → Replace → Disk → Result LanaError (Store × Disk)
unfolding read_manifest finish_open opened
open_disk u load_snapshot swap d =
    let s = opened d.manifest in
    read_manifest d.manifest >>= λ acknowledged.
    finish_open swap acknowledged
      ((if s.snapshot_rev == 0 then ok s else load_snapshot s) >>= λ s₁. replay u s₁ d.journal) d

-- ===== src/Runtime/Journal/Opening.antt =====
-- Proofs on opening a store of runtime/rust/lana-runtime/src/store.rs.
use lana.Prelude.{
  ℕ, ◌+◌, ◌≤◌, ltb, ◌==◌, ==_iff, true, false, Option, none, some, List, [], ◌∷◌, ◌++◌, length,
  take, drop, take_append, drop_append, All, Result, ok, err, panic, ◌≡◌, ◌⊎◌, inl, inr, refl, ap,
  sym, subst, ◌∙◌, arith,
}
use lana.Bytecode.Error.{LanaError}
use lana.Bytecode.Loader.{Utf8}
use lana.Runtime.Payload.Parsing.{IsClean}
use lana.Runtime.Store.{Store, Revision, replay}
use lana.Runtime.Journal.{
  Manifest, Disk, Write, Replace, RevisionInfo, Outcome, manifest_of, write_manifest, store_commit,
  opened, read_manifest, finish_open, open_disk,
}
use lana.Runtime.Journal.Chain.{records, last_id, recovered, Ends}
use lana.Runtime.Journal.Replay.{replay-records}
use lana.Runtime.Journal.Durable.{OnDisk, IsDurable, IsAcknowledged, OnDisk-IsDurable}
use lana.Runtime.Journal.Writing.{Atomic, next_revision}
use lana.Runtime.Journal.Commit.{store_commit-Atomic}

take-front : (xs ys : List ℕ) → take (0 + length xs) (xs ++ ys) ≡ xs
take-front xs ys = let same : 0 + length xs ≡ length xs = omega arith in rw same (take_append xs ys)

drop-front : (xs ys : List ℕ) → drop (0 + length xs) (xs ++ ys) ≡ ys
drop-front xs ys = let same : 0 + length xs ≡ length xs = omega arith in rw same (drop_append xs ys)

pub opened-fresh : (m : Option Manifest) (n : ℕ) → IsAcknowledged m n → (opened m).snapshot_rev ≡ 0
unfolding opened
opened-fresh none n a = refl
opened-fresh (some m) n a = a.0

pub opened-retained :
    (m : Option Manifest) (n : ℕ) → IsAcknowledged m n → (opened m).retention_boundary ≤ n
unfolding opened
opened-retained none n a = omega arith
opened-retained (some m) n (fresh, within, kept) = omega (arith, within, kept)

pub read_manifest-eq-ok :
    (m : Option Manifest) (n : ℕ)
    → IsAcknowledged m n
    → (k : ℕ) × (read_manifest m ≡ ok k) × (k ≤ n)
unfolding read_manifest
read_manifest-eq-ok none n a = (0, refl, omega arith)
read_manifest-eq-ok (some m) n (fresh, within, kept) =
    let old : ltb m.current m.snapshot ≡ false = ground (arith, fresh) in
    let boundary : ltb m.current m.retention ≡ false = ground (arith, kept) in
    (m.current, rw (old, boundary), within)

-- Opening the disk, with the manifest replaced, gives a store that stands for the revisions.
abbrev pub OpensTo : Utf8 → (Store → Result LanaError Store) → Disk → List Revision → Type 0
OpensTo u load d revs =
    (s : Store) × (d' : Disk) × (open_disk u load Replace.replaced d ≡ ok (s, d'))
    × IsDurable u s d' revs

module _ (u : Utf8) (d : Disk) (revs : List Revision) (o : OnDisk u d revs) where
  abbrev start : Store
  start = opened d.manifest

  abbrev restored : Store
  restored = recovered 0 revs start

  abbrev rewritten : Disk
  rewritten = record d { manifest = some (manifest_of restored) }

  start-fresh : start.snapshot_rev ≡ 0
  start-fresh = opened-fresh d.manifest (last_id 0 revs) o.acknowledged

  pub restored-IsDurable : IsDurable u restored rewritten revs
  unfolding opened recovered manifest_of
  restored-IsDurable = record {
    handle = refl;
    fresh = start-fresh;
    revisions = refl;
    chain = o.chain;
    index = refl;
    current = refl;
    offset = ap (take (0 + length (records 0 revs))) o.journal ∙ take-front (records 0 revs) o.tail;
    size = omega arith;
    tail =
        subst Ends
          (sym (
            ap (drop (0 + length (records 0 revs))) o.journal ∙ drop-front (records 0 revs) o.tail))
          o.ends;
    acknowledged =
        (start-fresh, omega arith, opened-retained d.manifest (last_id 0 revs) o.acknowledged);
    retained = opened-retained d.manifest (last_id 0 revs) o.acknowledged;
  }

  replayed : replay u start d.journal ≡ ok restored
  unfolding opened
  replayed =
      ap (replay u start) o.journal
      ∙ replay-records u revs o.tail start start-fresh refl o.chain o.ends

  finish_open-eq-ok :
      (k : ℕ)
      → k ≤ last_id 0 revs
      → finish_open Replace.replaced k (ok restored) d ≡ ok (restored, rewritten)
  unfolding finish_open recovered write_manifest
  finish_open-eq-ok k h = let seen : ltb (last_id 0 revs) k ≡ false = ground (arith, h) in rw seen

  -- Opening a disk without a snapshot, whose journal file holds the records of a chain of revisions
  -- with no whole record after them, and whose manifest acknowledges no more than these: if the
  -- manifest can be replaced, it succeeds with a store that stands for the revisions, also on the
  -- disk that it leaves, whatever follows the last whole record.
  pub open_disk-IsDurable : (load : Store → Result LanaError Store) → OpensTo u load d revs
  unfolding open_disk
  open_disk-IsDurable load =
      let (k, read, within) = read_manifest-eq-ok d.manifest (last_id 0 revs) o.acknowledged in
      let zero_snapshot : (start.snapshot_rev == 0) ≡ true = (==_iff _ _).1 start-fresh in
      (
        restored,
        rewritten,
        rw (read, zero_snapshot, replayed) (finish_open-eq-ok k within),
        restored-IsDurable,
      )

-- What opening a disk gives after a commit with this answer.
abbrev pub Reopens :
    Utf8
    → (Store → Result LanaError Store)
    → List Revision
    → Revision
    → Outcome RevisionInfo
    → Type 0
Reopens u load revs r (s, d, ok info) = OpensTo u load d (revs ++ (r ∷ []))
Reopens u load revs r (s, d, err e) = OpensTo u load d revs ⊎ OpensTo u load d (revs ++ (r ∷ []))
Reopens u load revs r (s, d, panic) = ⊥

Reopens-Atomic :
    (u : Utf8) (load : Store → Result LanaError Store) (revs : List Revision) (r : Revision)
    (s : Store) (d : Disk) (answer : Result LanaError RevisionInfo)
    → Atomic u revs r (s, d, answer)
    → Reopens u load revs r (s, d, answer)
Reopens-Atomic u load revs r s d (ok info) (w, same, empty) =
    open_disk-IsDurable u d (revs ++ (r ∷ [])) (OnDisk-IsDurable u s d (revs ++ (r ∷ [])) w) load
Reopens-Atomic u load revs r s d (err e) (inl w) =
    inl (open_disk-IsDurable u d revs (OnDisk-IsDurable u s d revs w) load)
Reopens-Atomic u load revs r s d (err e) (inr (closed, inl o)) =
    inl (open_disk-IsDurable u d revs o load)
Reopens-Atomic u load revs r s d (err e) (inr (closed, inr o)) =
    inr (open_disk-IsDurable u d (revs ++ (r ∷ [])) o load)
Reopens-Atomic u load revs r s d panic never = never

-- A commit of clean staged mutations on an open store without a snapshot that stands for some
-- revisions, then a crash
-- that keeps the disk, and an opening that can replace the manifest: however the commit's writes
-- went, the opening succeeds with a store that stands for the old revisions or for these and the
-- staged one, and, if the commit was acknowledged, for the latter.
pub reopen-store_commit :
    (u : Utf8) (load : Store → Result LanaError Store) (s : Store) (d : Disk) (revs : List Revision)
    → IsDurable u s d revs
    → All (IsClean u) s.staged
    → (write : Write) (swap : Replace)
    → Reopens u load revs (next_revision s) (store_commit write swap s d)
reopen-store_commit u load s d revs w clean write swap =
    let (s₁, d₁, answer) = store_commit write swap s d in
    Reopens-Atomic u load revs (next_revision s) _ _ _
      (store_commit-Atomic u s d revs w clean write swap)

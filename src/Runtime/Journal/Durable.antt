-- ===== src/Runtime/Journal/Durable.antt =====
-- A store of runtime/rust/lana-runtime/src/store.rs that stands for some revisions, on its disk.
use mathlib.Core.List.{append_assoc, append-nil}
use lana.Prelude.{
  ℕ, zero, suc, ◌≤◌, Bool, true, Option, none, some, List, [], ◌∷◌, ◌++◌, length, take, drop, ◌≡◌,
  inl, refl, ap, sym, ◌∙◌, arith,
}
use lana.Bytecode.Loader.{Utf8}
use lana.Runtime.Payload.{Mutation}
use lana.Runtime.Words.{take-drop}
use lana.Runtime.Journal.{Manifest, Disk}
use lana.Runtime.Store.{Store, Revision, Index, read_record, apply_all, apply_revisions}
use lana.Runtime.Journal.Chain.{IsLink, Chain, revision_record, records, last_id, Ends}

-- A manifest that acknowledges no revision past `n`, without a snapshot.
abbrev pub IsAcknowledged : Option Manifest → ℕ → Type 0
IsAcknowledged none n = Unit {0}
IsAcknowledged (some m) n = (m.snapshot ≡ 0) × (m.current ≤ n) × (m.retention ≤ m.current)

-- The journal file holds the records of the revisions, a chain, and after them no whole record;
-- the manifest acknowledges no more than these.
pub record OnDisk (u : Utf8) (d : Disk) (revs : List Revision) : Type 0 where
  pub tail : List ℕ
  pub journal : d.journal ≡ records 0 revs ++ tail
  pub ends : Ends tail
  pub chain : Chain u 0 revs
  pub acknowledged : IsAcknowledged d.manifest (last_id 0 revs)

-- An open store without a snapshot stands for the revisions, and so does its disk.
pub record IsDurable (u : Utf8) (s : Store) (d : Disk) (revs : List Revision) : Type 0 where
  pub handle : s.journal ≡ true
  pub fresh : s.snapshot_rev ≡ 0
  pub revisions : s.revisions ≡ revs
  pub chain : Chain u 0 revs
  pub index : s.index ≡ apply_revisions revs []
  pub current : s.current_rev ≡ last_id 0 revs
  pub offset : take s.journal_offset d.journal ≡ records 0 revs
  pub size : s.journal_offset ≡ length (records 0 revs)
  pub tail : Ends (drop s.journal_offset d.journal)
  pub acknowledged : IsAcknowledged d.manifest (last_id 0 revs)
  pub retained : s.retention_boundary ≤ s.current_rev

pub records-snoc :
    (previous : ℕ) (revs : List Revision) (r : Revision)
    → records previous (revs ++ (r ∷ []))
      ≡ records previous revs ++ revision_record (last_id previous revs) r
records-snoc previous [] r = append-nil (revision_record previous r)
records-snoc previous (q ∷ revs) r =
    ap (λ l. revision_record previous q ++ l) (records-snoc q.id revs r)
    ∙ sym (
        append_assoc (revision_record previous q) (records q.id revs)
          (revision_record (last_id q.id revs) r))

pub Chain-snoc :
    (u : Utf8) (previous : ℕ) (revs : List Revision) (r : Revision)
    → Chain u previous revs
    → IsLink u (last_id previous revs) r
    → Chain u previous (revs ++ (r ∷ []))
Chain-snoc u previous [] r c l = (l, tt)
Chain-snoc u previous (q ∷ revs) r (k, c) l = (k, Chain-snoc u q.id revs r c l)

pub apply_revisions-snoc :
    (revs : List Revision) (r : Revision) (index : Index)
    → apply_revisions (revs ++ (r ∷ [])) index ≡ apply_all r.mutations (apply_revisions revs index)
apply_revisions-snoc [] r index = refl
apply_revisions-snoc (q ∷ revs) r index = apply_revisions-snoc revs r (apply_all q.mutations index)

pub last_id-snoc :
    (previous : ℕ) (revs : List Revision) (r : Revision)
    → last_id previous (revs ++ (r ∷ [])) ≡ r.id
last_id-snoc previous [] r = refl
last_id-snoc previous (q ∷ revs) r = last_id-snoc q.id revs r

pub Ends-nil : Ends []
unfolding read_record
Ends-nil = inl refl

pub take-over : (n : ℕ) (xs : List ℕ) → length xs ≤ n → take n xs ≡ xs
take-over zero [] h = refl
take-over (suc n) [] h = refl
take-over zero (x ∷ xs) h = absurd (omega arith)
take-over (suc n) (x ∷ xs) h = ap (λ l. x ∷ l) (take-over n xs (omega arith))

pub drop-over : (n : ℕ) (xs : List ℕ) → length xs ≤ n → drop n xs ≡ []
drop-over zero [] h = refl
drop-over (suc n) [] h = refl
drop-over zero (x ∷ xs) h = absurd (omega arith)
drop-over (suc n) (x ∷ xs) h = drop-over n xs (omega arith)

pub OnDisk-IsDurable :
    (u : Utf8) (s : Store) (d : Disk) (revs : List Revision)
    → IsDurable u s d revs
    → OnDisk u d revs
OnDisk-IsDurable u s d revs w = record {
  tail = drop s.journal_offset d.journal;
  journal =
      sym (take-drop s.journal_offset d.journal)
      ∙ ap (λ l. l ++ drop s.journal_offset d.journal) w.offset;
  ends = w.tail;
  chain = w.chain;
  acknowledged = w.acknowledged;
}

pub IsAcknowledged-later :
    (m : Option Manifest) (n k : ℕ) → n ≤ k → IsAcknowledged m n → IsAcknowledged m k
IsAcknowledged-later none n k h a = tt
IsAcknowledged-later (some m) n k h (fresh, within, kept) = (fresh, omega (arith, h, within), kept)

-- What is staged and the last failure are no part of what a store stands for.
pub IsDurable-aside :
    (u : Utf8) (s : Store) (d : Disk) (revs : List Revision) (staged : List Mutation)
    (failure : Option Bool)
    → IsDurable u s d revs
    → IsDurable u (record s { staged = staged; io_failure = failure }) d revs
IsDurable-aside u s d revs staged failure w = record {
  handle = w.handle;
  fresh = w.fresh;
  revisions = w.revisions;
  chain = w.chain;
  index = w.index;
  current = w.current;
  offset = w.offset;
  size = w.size;
  tail = w.tail;
  acknowledged = w.acknowledged;
  retained = w.retained;
}

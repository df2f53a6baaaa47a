-- ===== src/Runtime/Journal/Writing.antt =====
-- Proofs on the writes of a commit in runtime/rust/lana-runtime/src/store.rs: what is on the disk
-- after them, however they go.
use mathlib.Core.List.{append-nil}
use lana.Prelude.{
  ℕ, ◌+◌, ◌<◌, ◌≤◌, true, false, not, ◌&&◌, leb, leb→le, List, [], ◌∷◌, ◌++◌, length, take, drop,
  length-append, ok, err, panic, ◌≡◌, ◌⊎◌, inl, inr, refl, ap, sym, subst, ◌∙◌, arith, Bool-cases,
  Option, none, some,
}
use lana.Bytecode.Loader.{Utf8}
use lana.Bytecode.Encoder.{encode_all}
use lana.Runtime.Payload.{mutation_bytes, revision_digest}
use lana.Runtime.Store.{Store, Revision, apply_all}
use lana.Runtime.Journal.{
  Disk, Write, Replace, RevisionInfo, Outcome, write_manifest, manifest_of, Manifest, publish,
  acknowledge, broken_write, write_record, fail_io, info_of,
}
use lana.Runtime.Journal.Reading.{read_record-broken}
use lana.Runtime.Journal.Chain.{IsLink, Chain, payload_of, revision_record, records, last_id, Ends}
use lana.Runtime.Journal.Durable.{
  OnDisk, IsDurable, IsAcknowledged, IsAcknowledged-later, records-snoc, Chain-snoc,
  apply_revisions-snoc, last_id-snoc, Ends-nil, take-over, drop-over, OnDisk-IsDurable,
}

-- The revision that a commit makes of what is staged.
abbrev pub next_revision : Store → Revision
next_revision s = record {
  id = s.current_rev + 1;
  mutations = s.staged;
  digest =
      revision_digest (s.current_rev + 1) s.current_rev (length s.staged)
        (encode_all mutation_bytes s.staged);
}

-- An acknowledged commit leaves a store that stands for the new revision too. One that fails leaves
-- a store that stands for the old ones, or a closed store whose disk stands for either.
abbrev pub Atomic : Utf8 → List Revision → Revision → Outcome RevisionInfo → Type 0
Atomic u revs r (s', d', ok info) =
    IsDurable u s' d' (revs ++ (r ∷ [])) × (info.revision_id ≡ r.id) × (s'.staged ≡ [])
Atomic u revs r (s', d', err e) =
    IsDurable u s' d' revs
    ⊎ ((s'.journal ≡ false) × (OnDisk u d' revs ⊎ OnDisk u d' (revs ++ (r ∷ []))))
Atomic u revs r (s', d', panic) = ⊥

module _ (u : Utf8) (s : Store) (d : Disk) (revs : List Revision) (w : IsDurable u s d revs)
    (l : IsLink u s.current_rev (next_revision s)) where
  abbrev r : Revision
  r = next_revision s

  abbrev bytes : List ℕ
  bytes = revision_record s.current_rev r

  new_records : records 0 (revs ++ (r ∷ [])) ≡ take s.journal_offset d.journal ++ bytes
  new_records =
      records-snoc 0 revs r
      ∙ ap (λ n. records 0 revs ++ revision_record n r) (sym w.current)
      ∙ ap (λ x. x ++ bytes) (sym w.offset)

  later : last_id 0 (revs ++ (r ∷ [])) ≡ s.current_rev + 1
  later = last_id-snoc 0 revs r

  new-Chain : Chain u 0 (revs ++ (r ∷ []))
  new-Chain = Chain-snoc u 0 revs r w.chain (subst (λ n. IsLink u n r) w.current l)

  old-OnDisk : OnDisk u d revs
  old-OnDisk = OnDisk-IsDurable u s d revs w

  kept-OnDisk : OnDisk u (record d { journal = take s.journal_offset d.journal }) revs
  kept-OnDisk = record {
    tail = [];
    journal = w.offset ∙ sym (append-nil (records 0 revs));
    ends = Ends-nil;
    chain = w.chain;
    acknowledged = w.acknowledged;
  }

  -- The old manifest, which the new revisions meet too.
  old_manifest : IsAcknowledged d.manifest (last_id 0 (revs ++ (r ∷ [])))
  old_manifest =
      IsAcknowledged-later d.manifest (last_id 0 revs) (last_id 0 (revs ++ (r ∷ [])))
        (omega (arith, later, w.current)) w.acknowledged

  new-OnDisk :
      (file : List ℕ) (manifest : Option Manifest)
      → file ≡ take s.journal_offset d.journal ++ bytes
      → IsAcknowledged manifest (last_id 0 (revs ++ (r ∷ [])))
      → OnDisk u (record { journal = file; manifest = manifest }) (revs ++ (r ∷ []))
  new-OnDisk file manifest e known = record {
    tail = [];
    journal = e ∙ sym new_records ∙ sym (append-nil (records 0 (revs ++ (r ∷ []))));
    ends = Ends-nil;
    chain = new-Chain;
    acknowledged = known;
  }

  broken-OnDisk :
      (n : ℕ)
      → OnDisk u (record d { journal = take s.journal_offset d.journal ++ take n bytes }) revs
        ⊎ OnDisk u
            (record d { journal = take s.journal_offset d.journal ++ take n bytes })
            (revs ++ (r ∷ []))
  broken-OnDisk n = elim (Bool-cases (leb (length bytes) n)) [
    | inl whole ↦ inr (
        new-OnDisk _ d.manifest
          (ap (λ b. take s.journal_offset d.journal ++ b) (take-over n bytes (leb→le _ _ whole)))
          old_manifest)
    | inr part ↦
        let less : n < length bytes = ground (arith, part) in
        inl (record {
          tail = take n bytes;
          journal = ap (λ x. x ++ take n bytes) w.offset;
          ends =
              read_record-broken r.id s.current_rev (length s.staged) (payload_of r) l.small
                (omega (arith, l.id, l.small)) l.count l.payload n less;
          chain = w.chain;
          acknowledged = w.acknowledged;
        })
  ]

  abbrev info : RevisionInfo
  info = info_of r.id r.digest

  -- The store after the record was written whole.
  abbrev published : Store
  published =
      publish r.id r.digest (s.journal_offset + length bytes) (record s { io_failure = none })

  length-new : length (take s.journal_offset d.journal ++ bytes) ≡ s.journal_offset + length bytes
  length-new =
      omega
        (arith, length-append (take s.journal_offset d.journal) bytes, ap length w.offset, w.size)

  published-IsDurable :
      (m : Disk)
      → m.journal ≡ take s.journal_offset d.journal ++ bytes
      → IsAcknowledged m.manifest (last_id 0 (revs ++ (r ∷ [])))
      → IsDurable u published m (revs ++ (r ∷ []))
  unfolding publish
  published-IsDurable m e known = record {
    handle = w.handle;
    fresh = w.fresh;
    revisions = ap (λ x. x ++ (r ∷ [])) w.revisions;
    chain = new-Chain;
    index = ap (apply_all s.staged) w.index ∙ sym (apply_revisions-snoc revs r []);
    current = sym (last_id-snoc 0 revs r);
    offset =
        ap (take (s.journal_offset + length bytes)) e
        ∙ take-over (s.journal_offset + length bytes) (take s.journal_offset d.journal ++ bytes)
            (omega (arith, length-new))
        ∙ sym new_records;
    size = sym (ap length new_records ∙ length-new);
    tail =
        subst Ends
          (sym (
            ap (drop (s.journal_offset + length bytes)) e
            ∙ drop-over (s.journal_offset + length bytes) (take s.journal_offset d.journal ++ bytes)
                (omega (arith, length-new))))
          Ends-nil;
    acknowledged = known;
    retained = omega (arith, w.retained);
  }

  new_manifest : IsAcknowledged (some (manifest_of published)) (last_id 0 (revs ++ (r ∷ [])))
  unfolding publish manifest_of
  new_manifest = (w.fresh, omega (arith, later), omega (arith, w.retained))

  -- The store after a failure that was rolled back.
  kept-IsDurable :
      IsDurable u
        (fail_io false (record s { io_failure = none }))
        (record d { journal = take s.journal_offset d.journal })
        revs
  unfolding fail_io
  kept-IsDurable =
      let short : length (take s.journal_offset d.journal) ≤ s.journal_offset =
        omega (arith, ap length w.offset, w.size) in
      record {
        handle = w.handle;
        fresh = w.fresh;
        revisions = w.revisions;
        chain = w.chain;
        index = w.index;
        current = w.current;
        offset = take-over s.journal_offset (take s.journal_offset d.journal) short ∙ w.offset;
        size = w.size;
        tail =
            subst Ends (sym (drop-over s.journal_offset (take s.journal_offset d.journal) short))
              Ends-nil;
        acknowledged = w.acknowledged;
        retained = w.retained;
      }

  pub write_record-Atomic :
      (write : Write) (swap : Replace)
      → Atomic u revs r (write_record write swap info bytes (record s { io_failure = none }) d)
  unfolding write_record acknowledge write_manifest broken_write fail_io publish
  write_record-Atomic Write.through Replace.replaced =
      (published-IsDurable _ refl new_manifest, refl, refl)
  write_record-Atomic Write.through (Replace.failed uncertain true) =
      inr (refl, inr (new-OnDisk _ _ refl new_manifest))
  write_record-Atomic Write.through (Replace.failed uncertain false) =
      inr (refl, inr (new-OnDisk _ _ refl old_manifest))
  write_record-Atomic (Write.refused true) swap = inl kept-IsDurable
  write_record-Atomic (Write.refused false) swap = inr (refl, inl old-OnDisk)
  write_record-Atomic (Write.broken n rollback) swap =
      elim (Bool-cases (not (leb (length bytes) n) && rollback)) [
        | inl back ↦ rw back (inl kept-IsDurable)
        | inr left ↦ rw left (inr (refl, broken-OnDisk n))
      ]

-- ===== src/Runtime/Journal/Commit.antt =====
-- Proofs on `store_commit` of runtime/rust/lana-runtime/src/store.rs.
use lana.Prelude.{
  ℕ, ◌+◌, ◌-◌, ◌%◌, ◌^◌, ◌<◌, ◌≤◌, Bool, true, false, not, ltb, ◌==◌, if◌then◌else◌, List, length,
  All, Result, ok, err, panic, ◌≡◌, inl, inr, refl, ap, sym, subst, ◌∙◌, arith, Bool-cases, none,
}
use native.Mathlib.Nat.{mod-eq_of_lt}
use lana.Bytecode.Error.{LanaError}
use lana.Bytecode.Loader.{Utf8}
use lana.Bytecode.Encoder.{encode_all}
use lana.Runtime.Payload.{mutation_bytes, build_payload, store_limit}
use lana.Runtime.Payload.Parsing.{IsClean, FitsMutation}
use lana.Runtime.Payload.Building.{build_payload-eq-ok, build_payload-Fits, build_payload-ne-panic}
use lana.Runtime.Store.{Store, Revision}
use lana.Runtime.Journal.{Disk, Write, Replace, commit_payload, commit_built, store_commit}
use lana.Runtime.Journal.Chain.{revision_record}
use lana.Runtime.Journal.Durable.{IsDurable, IsDurable-aside}
use lana.Runtime.Journal.Writing.{Atomic, next_revision, write_record-Atomic}

pub store_commit-if :
    (write : Write) (swap : Replace) (s : Store) (d : Disk) (nothing : Bool)
    → s.journal ≡ true
    → (length s.staged == 0) ≡ nothing
    → store_commit write swap s d ≡ (
        if nothing
        then (s, d, err LanaError.unsupported_operation)
        else commit_built write swap s d (build_payload s.staged))
unfolding store_commit
store_commit-if write swap s d nothing h e =
    ap
      (λ b.
        if not b
        then (s, d, err LanaError.invalid_state)
        else (if length s.staged == 0
            then (s, d, err LanaError.unsupported_operation)
            else commit_built write swap s d (build_payload s.staged)))
      h
    ∙ ap
        (λ b.
          if b
          then (s, d, err LanaError.unsupported_operation)
          else commit_built write swap s d (build_payload s.staged))
        e

module _ (u : Utf8) (s : Store) (d : Disk) (revs : List Revision) (w : IsDurable u s d revs)
    (clean : All (IsClean u) s.staged) where
  commit_payload-Atomic :
      (write : Write) (swap : Replace)
      → All (FitsMutation u) s.staged
      → length s.staged < 2 ^ 32
      → length (encode_all mutation_bytes s.staged) ≤ store_limit
      → Atomic u revs
          (next_revision s)
          (commit_payload write swap (encode_all mutation_bytes s.staged) s d)
  unfolding commit_payload
  commit_payload-Atomic write swap fits count limit =
      let whole : length s.staged % 2 ^ 32 ≡ length s.staged = mod-eq_of_lt count in
      elim (Bool-cases (ltb s.current_rev (2 ^ 64 - 1))) [
        | inr last ↦ rw last (inl w)
        | inl room ↦
            let bytes = revision_record s.current_rev (next_revision s) in
            elim (Bool-cases (ltb (s.journal_offset + length bytes) (2 ^ 64))) [
              | inr long ↦ rw (room, whole, long) (inl (IsDurable-aside u s d revs s.staged none w))
              | inl short ↦
                  rw (room, whole, short)
                    (write_record-Atomic u s d revs w
                      (record {
                        id = refl;
                        small = ground (arith, room);
                        mutations = fits;
                        count = count;
                        payload = limit;
                        digest = refl;
                      })
                      write swap)
            ]
      ]

  commit_built-Atomic :
      (built : Result LanaError (List ℕ))
      → build_payload s.staged ≡ built
      → (write : Write) (swap : Replace)
      → Atomic u revs (next_revision s) (commit_built write swap s d built)
  unfolding commit_built
  commit_built-Atomic (ok payload) h write swap =
      let (e, limit) = build_payload-eq-ok s.staged payload h in
      let (fits, count) = build_payload-Fits u s.staged payload clean h in
      subst (λ p. Atomic u revs (next_revision s) (commit_payload write swap p s d)) (sym e)
        (commit_payload-Atomic write swap fits count (subst (λ p. length p ≤ store_limit) e limit))
  commit_built-Atomic (err e) h write swap = inl w
  commit_built-Atomic panic h write swap = build_payload-ne-panic s.staged h

  -- A commit of clean staged mutations, on an open store without a snapshot that stands for some
  -- revisions, however its writes go: if it is acknowledged, the store and its disk stand for these
  -- and the staged revision, and nothing is staged. If it fails, they stand for the old revisions,
  -- or the store is closed and the disk stands for the old revisions or for these and the staged
  -- one. What a failed commit leaves staged is not stated.
  pub store_commit-Atomic :
      (write : Write) (swap : Replace)
      → Atomic u revs (next_revision s) (store_commit write swap s d)
  store_commit-Atomic write swap = elim (Bool-cases (length s.staged == 0)) [
    | inl none_staged ↦
        subst (Atomic u revs (next_revision s))
          (sym (store_commit-if write swap s d true w.handle none_staged)) (inl w)
    | inr some_staged ↦
        subst (Atomic u revs (next_revision s))
          (sym (store_commit-if write swap s d false w.handle some_staged))
          (commit_built-Atomic (build_payload s.staged) refl write swap)
  ]

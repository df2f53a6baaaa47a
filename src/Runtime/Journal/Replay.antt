-- ===== src/Runtime/Journal/Replay.antt =====
-- Proofs on `replay` of runtime/rust/lana-runtime/src/store.rs over a journal of whole records with
-- any tail.
use mathlib.Core.List.{append_assoc, append-nil}
use lana.Prelude.{
  ℕ, suc, ◌+◌, ◌-◌, ◌^◌, ◌≤◌, Bool, true, false, ltb, lt→ltb, ◌==◌, ==_iff, List, [], ◌∷◌, ◌++◌,
  length, length-append, ok, ◌≡◌, inl, inr, refl, ap, sym, ◌∙◌, arith,
}
use lana.Bytecode.Loader.{Utf8}
use lana.Runtime.Payload.{revision_digest}
use lana.Runtime.Payload.Parsing.{str_eq_self, parse_payload-encoded}
use lana.Runtime.Store.{
  Store, Revision, Raw, follows, linked, accept, at_end, accept_record, replay_loop, replay,
  apply_all, apply_revisions,
}
use lana.Runtime.Journal.Records.{raw, length-record_bytes}
use lana.Runtime.Journal.Reading.{read_record-whole}
use lana.Runtime.Journal.Chain.{
  IsLink, Chain, payload_of, revision_record, records, last_id, seen, recovered, Ends,
}

-- The store after one revision.
abbrev accepted : ℕ → Revision → Store → Store
accepted previous r s = record s {
  revisions = s.revisions ++ (r ∷ []);
  index = apply_all r.mutations s.index;
  current_rev = r.id;
  journal_offset = s.journal_offset + length (revision_record previous r);
}

follows-fresh :
    (s : Store) (journal_revision : ℕ) (r : Raw)
    → s.snapshot_rev ≡ 0
    → follows s journal_revision r ≡ journal_revision
unfolding follows
follows-fresh s journal_revision r fresh = ground (arith, fresh)

module _ (u : Utf8) (previous : ℕ) (r : Revision) (l : IsLink u previous r) where
  abbrev link_raw : Raw
  link_raw = raw r.id previous (length r.mutations) (payload_of r)

  linked-link : linked previous link_raw ≡ true
  unfolding linked
  linked-link =
      let same = str_eq_self (revision_digest r.id previous (length r.mutations) (payload_of r)) in
      let here : (r.id == r.id) ≡ true = (==_iff _ _).1 refl in
      let there : (previous == previous) ≡ true = (==_iff _ _).1 refl in
      let room : ltb previous (2 ^ 64 - 1) ≡ true = lt→ltb _ _ (omega (arith, l.id, l.small)) in
      let next : (r.id == previous + 1) ≡ true = (==_iff _ _).1 l.id in
      rw (here, there, room, next, same)

  accept-accepted :
      (s : Store) → s.snapshot_rev ≡ 0 → accept link_raw r.mutations s ≡ accepted previous r s
  unfolding accept
  accept-accepted s fresh =
      let newer : ltb s.snapshot_rev r.id ≡ true = lt→ltb _ _ (omega (arith, l.id, fresh)) in
      let size = sym (length-record_bytes r.id previous (length r.mutations) (payload_of r)) in
      rw newer (λ i. record s {
        revisions =
            s.revisions
            ++ (record { id = r.id; mutations = r.mutations; digest = sym l.digest i } ∷ []);
        index = apply_all r.mutations s.index;
        current_rev = r.id;
        journal_offset = s.journal_offset + size i;
      })

  accept_record-link :
      (s : Store)
      → s.snapshot_rev ≡ 0
      → accept_record u previous link_raw s ≡ ok (accepted previous r s, r.id)
  unfolding accept_record
  accept_record-link s fresh =
      let same = str_eq_self (revision_digest r.id previous (length r.mutations) (payload_of r)) in
      rw
        (
          follows-fresh s previous link_raw fresh,
          linked-link,
          same,
          parse_payload-encoded u r.mutations l.mutations,
        )
        (ap (λ t. ok (t, r.id)) (accept-accepted s fresh))

at_end-fresh :
    (s : Store) (journal_revision : ℕ) (saw : Bool)
    → s.snapshot_rev ≡ 0
    → at_end s journal_revision saw ≡ ok s
unfolding at_end
at_end-fresh s journal_revision saw fresh = ground (arith, fresh)

recovered-nil : (previous : ℕ) (s : Store) → s.current_rev ≡ previous → s ≡ recovered previous [] s
unfolding recovered
recovered-nil previous s e =
    let same : s.journal_offset ≡ s.journal_offset + 0 = omega arith in
    λ i. record s {
      revisions = sym (append-nil s.revisions) i;
      current_rev = e i;
      journal_offset = same i;
    }

recovered-cons :
    (previous : ℕ) (r : Revision) (rs : List Revision) (s : Store)
    → recovered r.id rs (accepted previous r s) ≡ recovered previous (r ∷ rs) s
unfolding recovered
recovered-cons previous r rs s =
    let size : s.journal_offset + length (revision_record previous r) + length (records r.id rs)
        ≡ s.journal_offset + length (revision_record previous r ++ records r.id rs) =
      omega (arith, length-append (revision_record previous r) (records r.id rs)) in
    λ i. record s {
      revisions = append_assoc s.revisions (r ∷ []) rs i;
      index = apply_revisions rs (apply_all r.mutations s.index);
      current_rev = last_id r.id rs;
      journal_offset = size i;
    }

module _ (u : Utf8) where
  replay_end :
      (fuel : ℕ) (s : Store) (previous : ℕ) (saw : Bool) (tail : List ℕ)
      → s.snapshot_rev ≡ 0
      → Ends tail
      → replay_loop u (suc fuel) s previous saw tail ≡ ok s
  unfolding replay_loop
  replay_end fuel s previous saw tail fresh (inl h) =
      rw (replay_loop, h) (at_end-fresh s previous saw fresh)
  replay_end fuel s previous saw tail fresh (inr h) = rw (replay_loop, h)

  replay_step :
      (fuel : ℕ) (s : Store) (previous : ℕ) (saw : Bool) (r : Revision) (after : List ℕ)
      → s.snapshot_rev ≡ 0
      → IsLink u previous r
      → replay_loop u (suc fuel) s previous saw (revision_record previous r ++ after)
        ≡ replay_loop u fuel (accepted previous r s) r.id true after
  unfolding replay_loop
  replay_step fuel s previous saw r after fresh l =
      let here =
        read_record-whole r.id previous (length r.mutations) (payload_of r) l.small
          (omega (arith, l.id, l.small)) l.count l.payload after in
      rw (replay_loop, here, accept_record-link u previous r l s fresh)

  -- The loop reads the records of a chain with a round for each, and goes on after them.
  pub replay_loop-records :
      (revs : List Revision) (fuel : ℕ) (s : Store) (previous : ℕ) (saw : Bool) (rest : List ℕ)
      → s.snapshot_rev ≡ 0
      → s.current_rev ≡ previous
      → Chain u previous revs
      → replay_loop u (length revs + fuel) s previous saw (records previous revs ++ rest)
        ≡ replay_loop u fuel
            (recovered previous revs s)
            (last_id previous revs)
            (seen saw revs)
            rest
  replay_loop-records [] fuel s previous saw rest fresh e c =
      let same : length {A = Revision} [] + fuel ≡ fuel = omega arith in
      ap (λ n. replay_loop u n s previous saw rest) same
      ∙ ap (λ t. replay_loop u fuel t previous saw rest) (recovered-nil previous s e)
  replay_loop-records (r ∷ rs) fuel s previous saw rest fresh e (l, c) =
      let after = records r.id rs ++ rest in
      let same : length (r ∷ rs) + fuel ≡ suc (length rs + fuel) = omega arith in
      ap (λ n. replay_loop u n s previous saw (records previous (r ∷ rs) ++ rest)) same
      ∙ ap (replay_loop u (suc (length rs + fuel)) s previous saw)
          (append_assoc (revision_record previous r) (records r.id rs) rest)
      ∙ replay_step (length rs + fuel) s previous saw r after fresh l
      ∙ replay_loop-records rs fuel (accepted previous r s) r.id true rest fresh refl c
      ∙ ap (λ t. replay_loop u fuel t (last_id r.id rs) (seen true rs) rest)
          (recovered-cons previous r rs s)

  pub length-records :
      (previous : ℕ) (revs : List Revision) → length revs ≤ length (records previous revs)
  length-records previous [] = omega arith
  length-records previous (r ∷ rs) = omega (
    arith,
    length-append (revision_record previous r) (records r.id rs),
    length-record_bytes r.id previous (length r.mutations) (payload_of r),
    length-records r.id rs,
  )

  -- `replay` of the records of a chain goes on after them, with fuel for a round and more.
  pub replay_past-records :
      (revs : List Revision) (s : Store) (rest : List ℕ)
      → s.snapshot_rev ≡ 0
      → s.current_rev ≡ 0
      → Chain u 0 revs
      → (fuel : ℕ) × (replay u s (records 0 revs ++ rest)
          ≡ replay_loop u (suc fuel) (recovered 0 revs s) (last_id 0 revs) (seen false revs) rest)
  unfolding replay
  replay_past-records revs s rest fresh e c =
      let file = records 0 revs ++ rest in
      let fuel = length file - length revs in
      let enough : suc (length file) ≡ length revs + suc fuel =
        omega (arith, length-append (records 0 revs) rest, length-records 0 revs) in
      (
        fuel,
        ap (λ n. replay_loop u n s 0 false file) enough
            ∙ replay_loop-records revs (suc fuel) s 0 false rest fresh e c,
      )

  -- On a store that starts without a snapshot, `replay` of the records of a chain of revisions, with
  -- any tail that is not a whole record, gives the store after these revisions.
  pub replay-records :
      (revs : List Revision) (tail : List ℕ) (s : Store)
      → s.snapshot_rev ≡ 0
      → s.current_rev ≡ 0
      → Chain u 0 revs
      → Ends tail
      → replay u s (records 0 revs ++ tail) ≡ ok (recovered 0 revs s)
  unfolding recovered
  replay-records revs tail s fresh e c t =
      let (fuel, past) = replay_past-records revs s tail fresh e c in
      past ∙ replay_end fuel (recovered 0 revs s) (last_id 0 revs) (seen false revs) tail fresh t

-- ===== src/Runtime/Journal/History.antt =====
-- Proofs on `store_get_at` of runtime/rust/lana-runtime/src/store.rs on a store that stands for some
-- revisions.
use lana.Prelude.{
  ℕ, ◌≤◌, false, not, ltb, ◌==◌, ==_iff, if◌then◌else◌, List, [], ◌∷◌, none, Result, err, ◌≡◌, refl,
  ap, sym, ◌∙◌, arith, Bool-cases, inl, inr,
}
use lana.Bytecode.Error.{LanaError}
use lana.Bytecode.Objects.Text.{Str}
use lana.Bytecode.Loader.{Utf8}
use lana.Runtime.Store.{
  Store, Revision, get_key, get_bytes, get_bytes_at, apply_revisions, latest_upto, left_by, found,
}
use lana.Runtime.Store.Lookup.{upto, latest_upto-apply}
use lana.Runtime.Journal.{Disk}
use lana.Runtime.Journal.Chain.{Chain, last_id}
use lana.Runtime.Journal.Durable.{IsDurable}

last_id-Chain :
    (u : Utf8) (previous : ℕ) (revs : List Revision)
    → Chain u previous revs
    → previous ≤ last_id previous revs
last_id-Chain u previous [] c = omega arith
last_id-Chain u previous (r ∷ rs) (l, c) = omega (arith, l.id, last_id-Chain u r.id rs c)

upto-Chain :
    (u : Utf8) (previous n : ℕ) (revs : List Revision)
    → Chain u previous revs
    → last_id previous revs ≤ n
    → upto n revs ≡ revs
upto-Chain u previous n [] c h = refl
upto-Chain u previous n (r ∷ rs) (l, c) h =
    let first : r.id ≤ n = omega (arith, h, last_id-Chain u r.id rs c) in
    let within : ltb n r.id ≡ false = ground (arith, first) in
    rw within (ap (λ l. r ∷ l) (upto-Chain u r.id n rs c h))

module _ (u : Utf8) (s : Store) (d : Disk) (revs : List Revision) (w : IsDurable u s d revs) where
  pub get_bytes-IsDurable :
      (key : Str) → get_bytes key s ≡ found (get_key key (apply_revisions revs []))
  unfolding get_bytes
  get_bytes-IsDurable key =
      ap (λ b. if not b then err LanaError.invalid_state else found (get_key key s.index)) w.handle
      ∙ ap (λ index. found (get_key key index)) w.index

  -- Past the checks.
  get_bytes_at-if :
      (revision : ℕ) (key : Str)
      → ltb s.current_rev revision ≡ false
      → ltb revision s.retention_boundary ≡ false
      → get_bytes_at revision key s ≡ (
          if revision == s.current_rev
          then get_bytes key s
          else found (left_by (latest_upto revision key s.revisions none)))
  unfolding get_bytes_at
  get_bytes_at-if revision key old kept =
      let past : Result LanaError (List ℕ) =
        if revision == s.current_rev
        then get_bytes key s
        else found (left_by (latest_upto revision key s.revisions none)) in
      ap
        (λ b.
          if not b
          then err LanaError.invalid_state
          else (if ltb s.current_rev revision
              then err LanaError.not_found
              else (if ltb revision s.retention_boundary
                  then err LanaError.compacted_history
                  else past)))
        w.handle
      ∙ ap
          (λ b.
            if b
            then err LanaError.not_found
            else (if ltb revision s.retention_boundary
                then err LanaError.compacted_history
                else past))
          old
      ∙ ap (λ b. if b then err LanaError.compacted_history else past) kept

  -- On an open store without a snapshot that stands for some revisions, reading a key at a revision
  -- that is at or above the retention boundary and at most the current one gives what the key has
  -- after exactly the revisions up to that one were applied to an empty index, `NotFound` if it has
  -- nothing.
  pub get_bytes_at-apply_revisions :
      (revision : ℕ) (key : Str)
      → s.retention_boundary ≤ revision
      → revision ≤ s.current_rev
      → get_bytes_at revision key s ≡ found (get_key key (apply_revisions (upto revision revs) []))
  unfolding get_key
  get_bytes_at-apply_revisions revision key kept old =
      let c1 : ltb s.current_rev revision ≡ false = ground (arith, old) in
      let c2 : ltb revision s.retention_boundary ≡ false = ground (arith, kept) in
      get_bytes_at-if revision key c1 c2 ∙ elim (Bool-cases (revision == s.current_rev)) [
        | inl current ↦
            let same : last_id 0 revs ≤ revision =
              omega (arith, w.current, (==_iff _ _).0 current) in
            ap
              (λ b.
                if b
                then get_bytes key s
                else found (left_by (latest_upto revision key s.revisions none)))
              current
            ∙ get_bytes-IsDurable key
            ∙ ap (λ l. found (get_key key (apply_revisions l [])))
                (sym (upto-Chain u 0 revision revs w.chain same))
        | inr earlier ↦
            ap
              (λ b.
                if b
                then get_bytes key s
                else found (left_by (latest_upto revision key s.revisions none)))
              earlier
            ∙ ap (λ l. found (left_by (latest_upto revision key l none))) w.revisions
            ∙ ap found (latest_upto-apply revision key revs none [] refl)
      ]

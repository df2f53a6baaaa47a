-- ===== src/Runtime/Effects/Attempts.antt =====
-- Proofs on `store_attempt` and its commit in runtime/rust/lana-runtime/src/effects.rs.
use lana.Prelude.{
  All-append, if_either, ℕ, Bool, true, false, not, ◌||◌, ◌==◌, if◌then◌else◌, some, List, [], ◌∷◌,
  ◌++◌, length, All, Result, ok, err, panic, ◌≡◌, ◌⊎◌, inl, inr, refl, ap, sym, subst, ◌∙◌, arith,
}
use lana.Bytecode.Error.{LanaError}
use lana.Bytecode.Objects.Text.{Str, lit}
use lana.Bytecode.Loader.{Utf8}
use lana.Runtime.Payload.{Mutation, has_nul}
use lana.Runtime.Payload.Parsing.{IsClean}
use lana.Runtime.Store.{Store, Revision, Index, get_key, apply_one, apply_all, apply_revisions}
use lana.Runtime.Store.Lookup.{get_key-insert_key}
use lana.Runtime.Journal.{Disk, Write, Replace, RevisionInfo, Outcome, stage, store_commit}
use lana.Runtime.Journal.Durable.{
  OnDisk, IsDurable, IsDurable-aside, OnDisk-IsDurable, apply_revisions-snoc,
}
use lana.Runtime.Journal.Writing.{Atomic, next_revision}
use lana.Runtime.Journal.Commit.{store_commit-Atomic}
use lana.Runtime.Codec.{decimal, encode_string}
use lana.Runtime.Codec.Clean.{has_nul-append, has_nul-decimal, has_nul-encode_string}
use lana.Runtime.Effects.{
  EffectAttempt, attempt_key, attempt_json, is_storable, store_get, unless_stored, store_put_text,
  store_attempt, commit_attempt,
}

has_nul-attempt_key :
    (decision_id attempt_id : ℕ) → has_nul (attempt_key decision_id attempt_id) ≡ false
unfolding attempt_key has_nul
has_nul-attempt_key decision_id attempt_id =
    has_nul-append (decimal decision_id) (lit "/" ++ decimal attempt_id)
    ∙ (λ i. has_nul-decimal decision_id i || has_nul-decimal attempt_id i)

abbrev put_of : Str → List ℕ → Mutation
put_of key bytes = record { key = key; deleted = false; value = bytes }

-- A put of the encoded text under the key was staged, or nothing was.
abbrev StagedBy : Str → Str → Store → Store × Result LanaError (Unit {0}) → Type 0
StagedBy key text s (s', ok _) =
    (bytes : List ℕ) × (encode_string text ≡ ok bytes)
    × (s' ≡ record s { staged = s.staged ++ (put_of key bytes ∷ []) })
StagedBy key text s (s', err e) = s' ≡ s
StagedBy key text s (s', panic) = s' ≡ s

stage-StagedBy :
    (key text : Str) (bytes : List ℕ) (s : Store)
    → encode_string text ≡ ok bytes
    → StagedBy key text s (stage key (some bytes) s)
unfolding stage
stage-StagedBy key text bytes s encoded =
    if_either (StagedBy key text s) (not s.journal) refl
      (if_either (StagedBy key text s) (length key == 0) refl (bytes, encoded, refl))

store_put_text-StagedBy :
    (key text : Str) (s : Store) → StagedBy key text s (store_put_text key text s)
unfolding store_put_text
store_put_text-StagedBy key text s =
    if_either (StagedBy key text s) (not s.journal) refl
      (if_either (StagedBy key text s) (length key == 0) refl (go (encode_string text) refl))
  where
    go :
        (r : Result LanaError Str)
        → encode_string text ≡ r
        → StagedBy key text s (elim r [
          | ok bytes ↦ stage key (some bytes) s
          | err e ↦ (s, err e)
          | panic ↦ (s, panic)
        ])
    go (ok bytes) h = stage-StagedBy key text bytes s h
    go (err e) h = refl
    go panic h = refl

-- The revisions leave a value under the key.
abbrev pub Has : Str → List Revision → Type 0
Has key revs = (value : List ℕ) × (get_key key (apply_revisions revs []) ≡ some value)

-- The value that the revisions leave under the key is the encoded text.
abbrev pub Holds : Str → Str → List Revision → Type 0
Holds key text revs =
    (value : List ℕ) × (encode_string text ≡ ok value)
    × (get_key key (apply_revisions revs []) ≡ some value)

pub Holds-Has : (key text : Str) (revs : List Revision) → Holds key text revs → Has key revs
Holds-Has key text revs (value, encoded, h) = (value, h)

get_key-apply_all :
    (key : Str) (bytes : List ℕ) (ms : List Mutation) (index : Index)
    → get_key key (apply_all (ms ++ (put_of key bytes ∷ [])) index) ≡ some bytes
unfolding apply_all apply_one
get_key-apply_all key bytes [] index = get_key-insert_key key bytes index
get_key-apply_all key bytes (m ∷ ms) index = get_key-apply_all key bytes ms (apply_one m index)

Holds-snoc :
    (key text : Str) (bytes : List ℕ) (ms : List Mutation) (revs : List Revision) (r : Revision)
    → encode_string text ≡ ok bytes
    → r.mutations ≡ ms ++ (put_of key bytes ∷ [])
    → Holds key text (revs ++ (r ∷ []))
Holds-snoc key text bytes ms revs r encoded e = (
  bytes,
  encoded,
  ap (get_key key)
        (apply_revisions-snoc revs r [] ∙ ap (λ l. apply_all l (apply_revisions revs [])) e)
      ∙ get_key-apply_all key bytes ms (apply_revisions revs []),
)

-- After the commit of an attempt: if it was acknowledged, the store stands for some revisions that
-- have the attempt, with nothing staged. If not, the disk stands for some, the old ones or ones that
-- have the attempt.
abbrev pub Committed : Utf8 → Str → Str → List Revision → Outcome RevisionInfo → Type 0
Committed u key text revs (s', d', ok info) =
    (revs' : List Revision) × IsDurable u s' d' revs' × (s'.staged ≡ []) × Holds key text revs'
Committed u key text revs (s', d', err e) =
    (revs' : List Revision) × OnDisk u d' revs' × ((revs' ≡ revs) ⊎ Holds key text revs')
Committed u key text revs (s', d', panic) = OnDisk u d' revs

module _ (u : Utf8) (s : Store) (d : Disk) (revs : List Revision) (w : IsDurable u s d revs)
    (clean : All (IsClean u) s.staged) (key text : Str) where
  Committed-Atomic :
      (bytes : List ℕ) (r : Revision) (outcome : Outcome RevisionInfo)
      → encode_string text ≡ ok bytes
      → r.mutations ≡ s.staged ++ (put_of key bytes ∷ [])
      → Atomic u revs r outcome
      → Committed u key text revs outcome
  Committed-Atomic bytes r (s', d', ok info) encoded e (w', same, empty) =
      (revs ++ (r ∷ []), w', empty, Holds-snoc key text bytes s.staged revs r encoded e)
  Committed-Atomic bytes r (s', d', err x) encoded e (inl w') =
      (revs, OnDisk-IsDurable u s' d' revs w', inl refl)
  Committed-Atomic bytes r (s', d', err x) encoded e (inr (closed, inl o)) = (revs, o, inl refl)
  Committed-Atomic bytes r (s', d', err x) encoded e (inr (closed, inr o)) =
      (revs ++ (r ∷ []), o, inr (Holds-snoc key text bytes s.staged revs r encoded e))
  Committed-Atomic bytes r (s', d', panic) encoded e never = absurd never

  unstored : OnDisk u d revs
  unstored = OnDisk-IsDurable u s d revs w

  store_commit-Committed :
      (write : Write) (swap : Replace) (bytes : List ℕ)
      → encode_string text ≡ ok bytes
      → IsClean u (put_of key bytes)
      → Committed u key text revs
          (store_commit write swap (record s { staged = s.staged ++ (put_of key bytes ∷ []) }) d)
  store_commit-Committed write swap bytes encoded c =
      let staged = s.staged ++ (put_of key bytes ∷ []) in
      let s₁ : Store = record s { staged = staged } in
      Committed-Atomic bytes (next_revision s₁) (store_commit write swap s₁ d) encoded refl (
        store_commit-Atomic u s₁ d revs (IsDurable-aside u s d revs staged s.io_failure w)
          (All-append (IsClean u) s.staged (put_of key bytes ∷ []) clean (c, tt)) write swap)

  -- The commit of a store in which the put was staged, or nothing.
  commit_staged-Committed :
      (write : Write) (swap : Replace) (staged : Store × Result LanaError (Unit {0}))
      → ((bytes : List ℕ) → has_nul bytes ≡ false → IsClean u (put_of key bytes))
      → StagedBy key text s staged
      → Committed u key text revs (elim staged.1 [
        | ok _ ↦ store_commit write swap staged.0 d
        | err e ↦ (staged.0, d, err e)
        | panic ↦ (staged.0, d, panic)
      ])
  commit_staged-Committed write swap (s', ok x) c (bytes, encoded, e) =
      subst (λ t. Committed u key text revs (store_commit write swap t d)) (sym e)
        (store_commit-Committed write swap bytes encoded
          (c bytes (has_nul-encode_string text bytes encoded)))
  commit_staged-Committed write swap (s', err x) c e = (revs, unstored, inl refl)
  commit_staged-Committed write swap (s', panic) c e = unstored

put_of-IsClean :
    (u : Utf8) (decision_id attempt_id : ℕ)
    → u.is_valid (attempt_key decision_id attempt_id) ≡ true
    → (bytes : List ℕ) → has_nul bytes ≡ false
    → IsClean u (put_of (attempt_key decision_id attempt_id) bytes)
unfolding attempt_key
put_of-IsClean u decision_id attempt_id text bytes nul = record {
  key_some = omega arith;
  key_text = text;
  key_nul = has_nul-attempt_key decision_id attempt_id;
  value_nul = nul;
  value_deleted = λ h. cc;
}

module _ {V : Type 0} (decode_bytes : List ℕ → Result LanaError V) where
  store_attempt-StagedBy :
      (a : EffectAttempt) (allow_overwrite : Bool) (s : Store)
      → StagedBy
          (attempt_key a.decision_id a.attempt_id)
          (attempt_json a)
          s
          (store_attempt decode_bytes a allow_overwrite s)
  unfolding store_attempt
  store_attempt-StagedBy a allow_overwrite s =
      let key = attempt_key a.decision_id a.attempt_id in
      if_either (StagedBy key (attempt_json a) s) (not (is_storable a)) refl (
        go (
          if allow_overwrite
          then ok tt
          else unless_stored decode_bytes (store_get decode_bytes key s)))
    where
      go :
          (r : Result LanaError (Unit {0}))
          → StagedBy (attempt_key a.decision_id a.attempt_id) (attempt_json a) s (elim r [
            | ok _ ↦ store_put_text (attempt_key a.decision_id a.attempt_id) (attempt_json a) s
            | err e ↦ (s, err e)
            | panic ↦ (s, panic)
          ])
      go (ok x) =
          store_put_text-StagedBy (attempt_key a.decision_id a.attempt_id) (attempt_json a) s
      go (err e) = refl
      go panic = refl

  -- The commit of an attempt, however its writes go.
  pub commit_attempt-Committed :
      (u : Utf8) (s : Store) (d : Disk) (revs : List Revision) (a : EffectAttempt)
      → IsDurable u s d revs
      → All (IsClean u) s.staged
      → u.is_valid (attempt_key a.decision_id a.attempt_id) ≡ true
      → (write : Write) (swap : Replace) (allow_overwrite : Bool)
      → Committed u
          (attempt_key a.decision_id a.attempt_id)
          (attempt_json a)
          revs
          (commit_attempt decode_bytes write swap a allow_overwrite s d)
  unfolding commit_attempt
  commit_attempt-Committed u s d revs a w clean text write swap allow_overwrite =
      commit_staged-Committed u s d revs w clean (attempt_key a.decision_id a.attempt_id)
        (attempt_json a) write swap (store_attempt decode_bytes a allow_overwrite s)
        (put_of-IsClean u a.decision_id a.attempt_id text)
        (store_attempt-StagedBy a allow_overwrite s)

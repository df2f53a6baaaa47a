-- ===== src/Runtime/Effects/Calls.antt =====
-- Proofs on when runtime/rust/lana-runtime/src/effects.rs calls the executor.
use lana.Prelude.{
  ℕ, true, false, Option, none, some, List, [], All, Result, ok, err, panic, ◌≡◌, inl, inr, refl,
  sym, subst,
}
use lana.Bytecode.Error.{LanaError}
use lana.Bytecode.Objects.Text.{Str}
use lana.Bytecode.Loader.{Utf8}
use lana.Runtime.Payload.Parsing.{IsClean}
use lana.Runtime.Store.{Store, Revision}
use lana.Runtime.Journal.{Disk, RevisionInfo, Outcome}
use lana.Runtime.Journal.Durable.{OnDisk, IsDurable, OnDisk-IsDurable}
use lana.Runtime.Effects.{
  EffectAttempt, Surroundings, Run, attempt_key, attempt_json, commit_attempt, ended_attempt,
  finish_attempt, execute, attempt_effect,
}
use lana.Runtime.Effects.Attempts.{Has, Holds, Holds-Has, Committed, commit_attempt-Committed}

-- The disk stands for revisions that leave the encoded text under the key.
abbrev pub Kept : Utf8 → Str → Str → Disk → Type 0
Kept u key text d = (revs : List Revision) × OnDisk u d revs × Holds key text revs

-- The disk stands for revisions that leave a value under the key.
abbrev pub Recorded : Utf8 → Str → Disk → Type 0
Recorded u key d = (revs : List Revision) × OnDisk u d revs × Has key revs

-- If the executor was called, the disk held the text under the key then, and has a value under it at
-- the end.
abbrev pub Calls : Utf8 → Str → Str → Option Disk → Disk → Type 0
Calls u key text none d' = Unit {0}
Calls u key text (some d) d' = Kept u key text d × Recorded u key d'

Recorded-Committed :
    (u : Utf8) (key text : Str) (revs : List Revision) (outcome : Outcome RevisionInfo)
    → Has key revs
    → Committed u key text revs outcome
    → Recorded u key outcome.1
Recorded-Committed u key text revs (s', d', ok info) h (revs', w, empty, h') =
    (revs', OnDisk-IsDurable u s' d' revs' w, Holds-Has key text revs' h')
Recorded-Committed u key text revs (s', d', err e) h (revs', o, inr h') =
    (revs', o, Holds-Has key text revs' h')
Recorded-Committed u key text revs (s', d', err e) h (revs', o, inl same) =
    (revs', o, subst (Has key) (sym same) h)
Recorded-Committed u key text revs (s', d', panic) h o = (revs, o, h)

abbrev pub key_of : EffectAttempt → Str
key_of a = attempt_key a.decision_id a.attempt_id

key_of-ended_attempt :
    {Answer : Type 0} (a : EffectAttempt) (ended : ℕ) (execution : Result LanaError Answer)
    → key_of (ended_attempt a ended execution) ≡ key_of a
unfolding ended_attempt
key_of-ended_attempt a ended (ok v) = refl
key_of-ended_attempt a ended (err e) = refl
key_of-ended_attempt a ended panic = refl

option_either :
    {A B : Type 0} (P : A → Type 0) (o : Option B) {x : A} {f : B → A}
    → P x
    → ((b : B) → P (f b))
    → P (elim o [ none ↦ x | some b ↦ f b ])
option_either P none p q = p
option_either P (some b) p q = q b

module _ {V Plan Answer : Type 0} (decode_bytes : List ℕ → Result LanaError V)
    (executor : Plan → Result LanaError Answer) where
  module _ (u : Utf8) (k : Surroundings) (plan : Plan) (a : EffectAttempt)
      (text : u.is_valid (key_of a) ≡ true) where
    abbrev Ran : Run Answer → Type 0
    Ran run = Calls u (key_of a) (attempt_json a) run.called run.disk

    module _ (s : Store) (d : Disk) (revs : List Revision) (w : IsDurable u s d revs)
        (empty : s.staged ≡ []) (h : Holds (key_of a) (attempt_json a) revs) where
      kept : Kept u (key_of a) (attempt_json a) d
      kept = (revs, OnDisk-IsDurable u s d revs w, h)

      recorded : Recorded u (key_of a) d
      recorded = (revs, OnDisk-IsDurable u s d revs w, Holds-Has (key_of a) (attempt_json a) revs h)

      finish_attempt-Calls :
          (execution : Result LanaError Answer)
          → Ran (finish_attempt decode_bytes executor k a execution s d)
      unfolding finish_attempt
      finish_attempt-Calls execution =
          option_either Ran k.ended (kept, recorded)
            (λ ended.
              let last = ended_attempt a ended execution in
              let same = key_of-ended_attempt a ended execution in
              let committed =
                commit_attempt-Committed decode_bytes u s d revs last w
                  (subst (All (IsClean u)) (sym empty) tt)
                  (subst (λ key. u.is_valid key ≡ true) (sym same) text) k.last_write k.last_swap
                  true in
              (
                kept,
                Recorded-Committed u (key_of a) (attempt_json last) revs _
                    (Holds-Has (key_of a) (attempt_json a) revs h)
                    (subst
                      (λ key.
                        Committed u key (attempt_json last) revs
                          (commit_attempt decode_bytes k.last_write k.last_swap last true s d))
                      same committed),
              ))

      execute-Calls : Ran (execute decode_bytes executor k a plan s d)
      unfolding execute
      execute-Calls = go (executor plan)
        where
          go :
              (execution : Result LanaError Answer)
              → Ran (elim execution [
                | ok value ↦ finish_attempt decode_bytes executor k a (ok value) s d
                | err e ↦ finish_attempt decode_bytes executor k a (err e) s d
                | panic ↦ record { store = s; disk = d; called = some d; answer = panic }
              ])
          go (ok value) = finish_attempt-Calls (ok value)
          go (err e) = finish_attempt-Calls (err e)
          go panic = (kept, recorded)

    module _ (s : Store) (d : Disk) (revs : List Revision) (w : IsDurable u s d revs)
        (clean : All (IsClean u) s.staged) where
      pub attempt_effect-Calls : Ran (attempt_effect decode_bytes executor k a plan s d)
      unfolding attempt_effect
      attempt_effect-Calls =
          go (commit_attempt decode_bytes k.first_write k.first_swap a false s d) (
            commit_attempt-Committed decode_bytes u s d revs a w clean text k.first_write
              k.first_swap false)
        where
          go :
              (outcome : Outcome RevisionInfo)
              → Committed u (key_of a) (attempt_json a) revs outcome
              → Ran (elim outcome.2 [
                | ok info ↦ execute decode_bytes executor k a plan outcome.0 outcome.1
                | err e ↦ record {
                  store = outcome.0;
                  disk = outcome.1;
                  called = none;
                  answer = err e;
                }
                | panic ↦ record {
                  store = outcome.0;
                  disk = outcome.1;
                  called = none;
                  answer = panic;
                }
              ])
          go (s₁, d₁, ok info) (revs₁, w₁, empty, h) = execute-Calls s₁ d₁ revs₁ w₁ empty h
          go (s₁, d₁, err e) c = tt
          go (s₁, d₁, panic) c = tt

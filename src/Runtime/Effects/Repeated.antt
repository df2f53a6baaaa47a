-- ===== src/Runtime/Effects/Repeated.antt =====
-- Proofs on a second attempt under one key in runtime/rust/lana-runtime/src/effects.rs.
use lana.Prelude.{
  if_either, ℕ, false, not, none, some, List, [], Result, ok, err, panic, ◌>>=◌, ◌≡◌, ◌≢◌, refl, ap,
  sym, subst, ◌∙◌,
}
use lana.Bytecode.Error.{LanaError}
use lana.Bytecode.Loader.{Utf8}
use lana.Runtime.Store.{Store, Revision, get_key, found, apply_revisions}
use lana.Runtime.Journal.{Disk, RevisionInfo, Outcome, store_commit}
use lana.Runtime.Journal.Durable.{IsDurable}
use lana.Runtime.Journal.History.{get_bytes-IsDurable}
use lana.Runtime.Effects.{
  EffectAttempt, Surroundings, Run, is_storable, attempt_json, store_put_text, store_get,
  unless_stored, store_attempt, commit_attempt, execute, attempt_effect,
}
use lana.Runtime.Effects.Attempts.{Has}
use lana.Runtime.Effects.Calls.{key_of}

-- No result.
abbrev NotOk : {A : Type 0} → Result LanaError A → Type 0
NotOk (ok x) = ⊥
NotOk (err e) = Unit {0}
NotOk panic = Unit {0}

module _ {V Plan Answer : Type 0} (decode_bytes : List ℕ → Result LanaError V)
    (executor : Plan → Result LanaError Answer)
    (decodes : (bytes : List ℕ) → decode_bytes bytes ≢ err LanaError.not_found) where
  unless_stored-NotOk :
      (r : Result LanaError V) → r ≢ err LanaError.not_found → NotOk (unless_stored decode_bytes r)
  unfolding unless_stored
  unless_stored-NotOk (ok v) h = tt
  unless_stored-NotOk (err LanaError.not_found) h = absurd (h refl)
  unless_stored-NotOk (err e) h = tt
  unless_stored-NotOk panic h = tt

  -- On a store that has the attempt, a new one under its key is not stored.
  module _ (u : Utf8) (k : Surroundings) (plan : Plan) (a : EffectAttempt) (s : Store) (d : Disk)
      (revs : List Revision) (w : IsDurable u s d revs) (h : Has (key_of a) revs) where
    store_get-eq :
        (value : List ℕ)
        → get_key (key_of a) (apply_revisions revs []) ≡ some value
        → store_get decode_bytes (key_of a) s ≡ decode_bytes value
    unfolding store_get
    store_get-eq value e =
        ap (λ r. r >>= decode_bytes) (get_bytes-IsDurable u s d revs w (key_of a) ∙ ap found e)

    stored-NotOk : NotOk (unless_stored decode_bytes (store_get decode_bytes (key_of a) s))
    stored-NotOk =
        let (value, e) = h in
        unless_stored-NotOk (store_get decode_bytes (key_of a) s)
          (subst (λ r. r ≢ err LanaError.not_found) (sym (store_get-eq value e)) (decodes value))

    store_attempt-NotOk : NotOk (store_attempt decode_bytes a false s).1
    unfolding store_attempt
    store_attempt-NotOk =
        if_either (λ (p : Store × Result LanaError (Unit {0})). NotOk p.1) (not (is_storable a)) tt
          (go (unless_stored decode_bytes (store_get decode_bytes (key_of a) s)) stored-NotOk)
      where
        go :
            (r : Result LanaError (Unit {0}))
            → NotOk r
            → (let p : Store × Result LanaError (Unit {0}) = elim r [
              | ok _ ↦ store_put_text (key_of a) (attempt_json a) s
              | err e ↦ (s, err e)
              | panic ↦ (s, panic)
            ] in
                NotOk p.1)
        go (ok x) n = absurd n
        go (err e) n = tt
        go panic n = tt

    commit_attempt-NotOk :
        NotOk (commit_attempt decode_bytes k.first_write k.first_swap a false s d).2
    unfolding commit_attempt
    commit_attempt-NotOk = go (store_attempt decode_bytes a false s) store_attempt-NotOk
      where
        go :
            (staged : Store × Result LanaError (Unit {0}))
            → NotOk staged.1
            → (let p : Outcome RevisionInfo = elim staged.1 [
              | ok _ ↦ store_commit k.first_write k.first_swap staged.0 d
              | err e ↦ (staged.0, d, err e)
              | panic ↦ (staged.0, d, panic)
            ] in
                NotOk p.2)
        go (s₁, ok x) n = absurd n
        go (s₁, err e) n = tt
        go (s₁, panic) n = tt

    pub attempt_effect-eq-none : (attempt_effect decode_bytes executor k a plan s d).called ≡ none
    unfolding attempt_effect
    attempt_effect-eq-none =
        go (commit_attempt decode_bytes k.first_write k.first_swap a false s d) commit_attempt-NotOk
      where
        go :
            (outcome : Outcome RevisionInfo)
            → NotOk outcome.2
            → (let run : Run Answer = elim outcome.2 [
              | ok info ↦ execute decode_bytes executor k a plan outcome.0 outcome.1
              | err e ↦ record {
                store = outcome.0;
                disk = outcome.1;
                called = none;
                answer = err e;
              }
              | panic ↦ record {
                store = outcome.0;
                disk = outcome.1;
                called = none;
                answer = panic;
              }
            ] in
                run.called ≡ none)
        go (s₁, d₁, ok info) n = absurd n
        go (s₁, d₁, err e) n = refl
        go (s₁, d₁, panic) n = refl

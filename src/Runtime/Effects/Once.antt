-- ===== src/Runtime/Effects/Once.antt =====
-- Proofs on `effect_execute_attempt` of runtime/rust/lana-runtime/src/effects.rs.
use lana.Prelude.{ℕ, true, none, some, List, All, Result, ok, err, ◌≡◌, ◌≢◌, refl, ap, subst, ◌∙◌}
use lana.Bytecode.Error.{LanaError}
use lana.Bytecode.Objects.Text.{Str}
use lana.Bytecode.Loader.{Utf8}
use lana.Runtime.Payload.Parsing.{IsClean}
use lana.Runtime.Store.{Store, Revision, get_bytes, found}
use lana.Runtime.Journal.{Disk, Replace, open_disk}
use lana.Runtime.Journal.Durable.{IsDurable}
use lana.Runtime.Journal.Opening.{open_disk-IsDurable}
use lana.Runtime.Journal.History.{get_bytes-IsDurable}
use lana.Runtime.Codec.{encode_string}
use lana.Runtime.Effects.{
  PolicyOutcome, Decision, Surroundings, Run, attempt_key, pending_attempt, effect_execute_attempt,
}
use lana.Runtime.Effects.Repeated.{attempt_effect-eq-none}
use lana.Runtime.Effects.Started.{
  pending_record, effect_execute_attempt-cases, Started, effect_execute_attempt-Started,
}

module _ {V Plan Answer : Type 0} (decode_bytes : List ℕ → Result LanaError V)
    (executor : Plan → Result LanaError Answer) where
  -- On an open store without a snapshot that stands for some revisions, with no mutation staged but
  -- clean ones (a key of valid text, no NUL in key or value), and a key of the attempt that is valid
  -- text: if `effect_execute_attempt` calls the executor, then the decision authorizes an effect, the
  -- clock gave a start time, and the disk, as it is at that time, opens to a store whose value under
  -- the key of the attempt is the encoded JSON record of the attempt: its id, decision, effect,
  -- target and start time, with no end time and the status `Pending`. This is so however the writes
  -- before the call went.
  pub get_bytes-effect_execute_attempt :
      (u : Utf8) (load : Store → Result LanaError Store) (k : Surroundings) (decision : Decision)
      (attempt_id : ℕ) (plan : Plan) (s : Store) (d : Disk) (revs : List Revision)
      → IsDurable u s d revs
      → All (IsClean u) s.staged
      → u.is_valid (attempt_key decision.decision_id attempt_id) ≡ true
      → (d₁ : Disk)
      → (effect_execute_attempt decode_bytes executor k decision attempt_id plan s d).called
        ≡ some d₁
      → (effect : Str) × (started : ℕ) × (decision.outcome ≡ PolicyOutcome.authorize)
        × (decision.effect ≡ some effect)
        × (k.started ≡ some started)
        × ((s' : Store) × (d' : Disk) × (value : List ℕ) × (open_disk u load Replace.replaced d₁
              ≡ ok (s', d'))
            × (get_bytes (attempt_key decision.decision_id attempt_id) s' ≡ ok value)
            × (encode_string (pending_record attempt_id decision effect started) ≡ ok value))
  get_bytes-effect_execute_attempt u load k decision attempt_id plan s d revs w clean text d₁
        called =
      let key = attempt_key decision.decision_id attempt_id in
      let run = effect_execute_attempt decode_bytes executor k decision attempt_id plan s d in
      let (effect, started, allows, names, reads, (revs₁, o, (value, encoded, h)), _) =
        subst (λ c. Started u k decision attempt_id c run.disk) called
          (effect_execute_attempt-Started decode_bytes executor u k decision attempt_id plan s d
            revs w clean text) in
      let (s', d', e, w') = open_disk-IsDurable u d₁ revs₁ o load in
      let read = get_bytes-IsDurable u s' d' revs₁ w' key ∙ ap found h in
      (effect, started, allows, names, reads, (s', d', value, e, read, encoded))

  -- On an open store without a snapshot that stands for some revisions, with no mutation staged but
  -- clean ones (a key of valid text, no NUL in key or value), a key of the attempt that is valid
  -- text, and a decoding of stored values that never answers `NotFound`: if a call of
  -- `effect_execute_attempt` calls the executor, then, however its writes and its executor went, the
  -- disk that it leaves opens to a store on which a call for the same decision and attempt does not
  -- call the executor.
  pub effect_execute_attempt-once :
      (decodes : (bytes : List ℕ) → decode_bytes bytes ≢ err LanaError.not_found) (u : Utf8)
      (load : Store → Result LanaError Store) (k again : Surroundings) (decision : Decision)
      (attempt_id : ℕ) (plan other : Plan) (s : Store) (d : Disk) (revs : List Revision)
      → IsDurable u s d revs
      → All (IsClean u) s.staged
      → u.is_valid (attempt_key decision.decision_id attempt_id) ≡ true
      → (d₁ : Disk)
      → (effect_execute_attempt decode_bytes executor k decision attempt_id plan s d).called
        ≡ some d₁
      → (s' : Store) × (d' : Disk) × (open_disk u load Replace.replaced
            (effect_execute_attempt decode_bytes executor k decision attempt_id plan s d).disk
          ≡ ok (s', d'))
        × ((effect_execute_attempt decode_bytes executor again decision attempt_id other s'
              d').called
            ≡ none)
  effect_execute_attempt-once decodes u load k again decision attempt_id plan other s d revs w clean
        text d₁ called =
      let key = attempt_key decision.decision_id attempt_id in
      let run = effect_execute_attempt decode_bytes executor k decision attempt_id plan s d in
      let (_, _, _, _, _, _, (revs', o, h)) =
        subst (λ c. Started u k decision attempt_id c run.disk) called
          (effect_execute_attempt-Started decode_bytes executor u k decision attempt_id plan s d
            revs w clean text) in
      let (s', d', e, w') = open_disk-IsDurable u run.disk revs' o load in
      (
        s',
        d',
        e,
        effect_execute_attempt-cases decode_bytes executor (λ (r : Run Answer). r.called ≡ none)
            again decision attempt_id other s' d' (λ answer. refl)
            (λ effect started allows names reads.
              attempt_effect-eq-none decode_bytes executor decodes u again other
                (pending_attempt decision effect attempt_id started) s' d' revs' w' h),
      )

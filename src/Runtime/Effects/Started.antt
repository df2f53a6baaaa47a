-- ===== src/Runtime/Effects/Started.antt =====
-- Proofs on the ways that `effect_execute_attempt` of runtime/rust/lana-runtime/src/effects.rs starts
-- an attempt.
use lana.Prelude.{
  if_either, ℕ, true, ◌==◌, ◌++◌, if◌then◌else◌, Option, none, some, List, All, Result, err, ◌≡◌,
  refl, subst,
}
use lana.Bytecode.Error.{LanaError}
use lana.Bytecode.Objects.Text.{Str, lit}
use lana.Bytecode.Loader.{Utf8}
use lana.Runtime.Payload.Parsing.{IsClean}
use lana.Runtime.Store.{Store, Revision}
use lana.Runtime.Journal.{Disk}
use lana.Runtime.Journal.Durable.{IsDurable}
use lana.Runtime.Codec.{decimal}
use lana.Runtime.Effects.{
  PolicyOutcome, Decision, EffectAttempt, Surroundings, Run, status_code, attempt_key, attempt_json,
  pending_attempt, attempt_effect, effect_execute_attempt,
}
use lana.Runtime.Effects.Calls.{Kept, Recorded, Calls, attempt_effect-Calls}

-- The record of an attempt that was started and has not ended, as JSON.
abbrev pub pending_record : ℕ → Decision → Str → ℕ → Str
pending_record attempt_id decision effect started =
    lit "{\"attempt_id\":"
    ++ (decimal attempt_id
        ++ (lit ",\"decision_id\":"
            ++ (decimal decision.decision_id
                ++ (lit ",\"effect\":\""
                    ++ (effect
                        ++ (lit "\",\"target\":\""
                            ++ (decision.target
                                ++ (lit
                                      "\",\"end_time\":0,\"failure_reason\":\"\",\"schema\":1,\"start_time\":"
                                    ++ (decimal started ++ lit ",\"status\":0}")))))))))

attempt_json-pending_attempt :
    (decision : Decision) (effect : Str) (attempt_id started : ℕ)
    → attempt_json (pending_attempt decision effect attempt_id started)
      ≡ pending_record attempt_id decision effect started
unfolding attempt_json decimal status_code
attempt_json-pending_attempt decision effect attempt_id started = refl

-- If the executor was called, an effect that the decision allows was started at a time that the
-- clock gave, the disk held the record of the pending attempt then, and has a value under its key
-- at the end.
abbrev pub Started : Utf8 → Surroundings → Decision → ℕ → Option Disk → Disk → Type 0
Started u k decision attempt_id none d' = Unit {0}
Started u k decision attempt_id (some d) d' =
    (effect : Str) × (started : ℕ) × (decision.outcome ≡ PolicyOutcome.authorize)
    × (decision.effect ≡ some effect)
    × (k.started ≡ some started)
    × Kept u (attempt_key decision.decision_id attempt_id)
        (pending_record attempt_id decision effect started) d
    × Recorded u (attempt_key decision.decision_id attempt_id) d'

Started-Calls :
    (u : Utf8) (k : Surroundings) (decision : Decision) (attempt_id : ℕ) (effect : Str)
    (started : ℕ) (called : Option Disk) (d' : Disk)
    → decision.outcome ≡ PolicyOutcome.authorize
    → decision.effect ≡ some effect
    → k.started ≡ some started
    → Calls u
        (attempt_key decision.decision_id attempt_id)
        (attempt_json (pending_attempt decision effect attempt_id started))
        called
        d'
    → Started u k decision attempt_id called d'
Started-Calls u k decision attempt_id effect started none d' allows names reads c = tt
Started-Calls u k decision attempt_id effect started (some d) d' allows names reads c = (
  effect,
  started,
  allows,
  names,
  reads,
  subst (λ text. Kept u (attempt_key decision.decision_id attempt_id) text d)
      (attempt_json-pending_attempt decision effect attempt_id started) c.0,
  c.1,
)

module _ {V Plan Answer : Type 0} (decode_bytes : List ℕ → Result LanaError V)
    (executor : Plan → Result LanaError Answer) where
  -- A property of a run that did not start, or that is an attempt under the key of these numbers.
  pub effect_execute_attempt-cases :
      (P : Run Answer → Type 0) (k : Surroundings) (decision : Decision) (attempt_id : ℕ)
      (plan : Plan) (s : Store) (d : Disk)
      → ((answer : Result LanaError (Answer × EffectAttempt))
          → P (record { store = s; disk = d; called = none; answer = answer }))
      → ((effect : Str) (started : ℕ)
          → decision.outcome ≡ PolicyOutcome.authorize
          → decision.effect ≡ some effect
          → k.started ≡ some started
          → P (
              attempt_effect decode_bytes executor k
                (pending_attempt decision effect attempt_id started)
                plan
                s
                d))
      → P (effect_execute_attempt decode_bytes executor k decision attempt_id plan s d)
  unfolding effect_execute_attempt
  effect_execute_attempt-cases P k decision attempt_id plan s d none_started attempted =
      go decision.outcome decision.effect k.started refl refl refl
    where
      go :
          (outcome : PolicyOutcome) (effect : Option Str) (clock : Option ℕ)
          → decision.outcome ≡ outcome
          → decision.effect ≡ effect
          → k.started ≡ clock
          → P (
              let refused : Run Answer = record {
                store = s;
                disk = d;
                called = none;
                answer = err LanaError.capability;
              } in
              let unclocked : Run Answer = record {
                store = s;
                disk = d;
                called = none;
                answer = err LanaError.io;
              } in
              elim outcome [
                | PolicyOutcome.refuse ↦ refused
                | PolicyOutcome.request_more_evidence ↦ refused
                | PolicyOutcome.authorize ↦ elim effect [
                  | none ↦ refused
                  | some effect ↦ if attempt_id == 0 then refused else elim clock [
                    | none ↦ unclocked
                    | some started ↦
                        attempt_effect decode_bytes executor k
                          (pending_attempt decision effect attempt_id started)
                          plan
                          s
                          d
                  ]
                ]
              ])
      go PolicyOutcome.refuse effect clock allows names reads = none_started _
      go PolicyOutcome.request_more_evidence effect clock allows names reads = none_started _
      go PolicyOutcome.authorize none clock allows names reads = none_started _
      go PolicyOutcome.authorize (some effect) none allows names reads =
          if_either P (attempt_id == 0) (none_started _) (none_started _)
      go PolicyOutcome.authorize (some effect) (some started) allows names reads =
          if_either P (attempt_id == 0) (none_started _)
            (attempted effect started allows names reads)

  pub effect_execute_attempt-Started :
      (u : Utf8) (k : Surroundings) (decision : Decision) (attempt_id : ℕ) (plan : Plan) (s : Store)
      (d : Disk) (revs : List Revision)
      → IsDurable u s d revs
      → All (IsClean u) s.staged
      → u.is_valid (attempt_key decision.decision_id attempt_id) ≡ true
      → let run = effect_execute_attempt decode_bytes executor k decision attempt_id plan s d in
        Started u k decision attempt_id run.called run.disk
  effect_execute_attempt-Started u k decision attempt_id plan s d revs w clean text =
      effect_execute_attempt-cases
        (λ (run : Run Answer). Started u k decision attempt_id run.called run.disk) k decision
        attempt_id plan s d (λ answer. tt)
        (λ effect started allows names reads.
          Started-Calls u k decision attempt_id effect started _ _ allows names reads (
            attempt_effect-Calls decode_bytes executor u k plan
              (pending_attempt decision effect attempt_id started) text s d revs w clean))

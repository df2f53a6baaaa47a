-- ===== src/Runtime/Effects.antt =====
-- runtime/rust/lana-runtime/src/effects.rs, and the decision of policy.rs that it executes. The
-- executor, the two readings of the clock and what the system does with the writes of the two
-- commits are arguments, and so is the decoding of a stored value, of which only the errors matter.
use Prim.Native.String.{String}
use lana.Prelude.{
  ℕ, ◌+◌, Bool, true, false, not, ◌&&◌, ◌||◌, leb, ◌==◌, if◌then◌else◌, Option, none, some, List,
  [], ◌∷◌, ◌++◌, length, Result, ok, err, panic, ◌>>=◌, ◌>>◌, require,
}
use lana.Bytecode.Error.{LanaError, error_name}
use lana.Bytecode.Objects.Text.{Str, lit}
use lana.Runtime.Store.{Store, get_bytes}
use lana.Runtime.Journal.{Disk, Write, Replace, RevisionInfo, Outcome, stage, store_commit}
use lana.Runtime.Codec.{decimal, encode_string}
pub mod Attempts
pub mod Calls
pub mod Repeated
pub mod Started
pub mod Once
mod Tests

-- `PolicyOutcome`
pub data PolicyOutcome : Type 0 where
  authorize : PolicyOutcome
  refuse : PolicyOutcome
  request_more_evidence : PolicyOutcome

pub record Decision : Type 0 where
  pub schema_version : ℕ
  pub decision_id : ℕ
  pub policy_id : Str
  pub policy_version : List ℕ
  pub target : Str
  pub scope : Str
  pub input_revision : ℕ
  pub evidence_ids : Option Str
  pub derivation_ids : Option Str
  pub relationship_resolution : Option Str
  pub outcome : PolicyOutcome
  pub effect : Option Str
  pub evaluation_time : ℕ
  pub reason : Str
  pub requested_evidence : Option Str

pub data EffectStatus : Type 0 where
  pending : EffectStatus
  succeeded : EffectStatus
  failed : EffectStatus
  cancelled : EffectStatus

-- `as u32`
unfoldable pub status_code : EffectStatus → ℕ
status_code EffectStatus.pending = 0
status_code EffectStatus.succeeded = 1
status_code EffectStatus.failed = 2
status_code EffectStatus.cancelled = 3

pub record EffectAttempt : Type 0 where
  pub schema_version : ℕ
  pub attempt_id : ℕ
  pub decision_id : ℕ
  pub effect_desc : Str
  pub target : Option Str
  pub status : EffectStatus
  pub start_time : ℕ
  pub end_time : ℕ
  pub failure_reason : Str

-- `json_safe` of a text that is there.
unfoldable pub json_safe : Str → Bool
json_safe [] = true
json_safe (b ∷ bs) = leb 0x20 b && (not (b == 92) && (not (b == 34) && json_safe bs))

abbrev pub or_empty : Option Str → Str
or_empty none = []
or_empty (some text) = text

unfoldable pub attempt_key : ℕ → ℕ → Str
unfolding decimal
attempt_key decision_id attempt_id =
    lit "effect-attempt/" ++ (decimal decision_id ++ (lit "/" ++ decimal attempt_id))

-- The fields of an attempt as JSON text.
unfoldable pub attempt_json : EffectAttempt → Str
unfolding decimal status_code
attempt_json a =
    lit "{\"attempt_id\":"
    ++ (decimal a.attempt_id
        ++ (lit ",\"decision_id\":"
            ++ (decimal a.decision_id
                ++ (lit ",\"effect\":\""
                    ++ (a.effect_desc
                        ++ (lit "\",\"target\":\""
                            ++ (or_empty a.target
                                ++ (lit "\",\"end_time\":"
                                    ++ (decimal a.end_time
                                        ++ (lit ",\"failure_reason\":\""
                                            ++ (a.failure_reason
                                                ++ (lit "\",\"schema\":1,\"start_time\":"
                                                    ++ (decimal a.start_time
                                                        ++ (lit ",\"status\":"
                                                            ++ (decimal (status_code a.status)
                                                            ++ lit "}")))))))))))))))

-- The checks of `store_attempt` on the attempt itself. A status is one of the four.
unfoldable pub is_storable : EffectAttempt → Bool
unfolding json_safe
is_storable a =
    (a.schema_version == 1)
    && (not (a.attempt_id == 0)
        && (not (a.decision_id == 0)
            && (not (length a.effect_desc == 0)
                && (json_safe a.effect_desc
                    && (json_safe (or_empty a.target) && json_safe a.failure_reason)))))

-- `store_put` of a text.
unfoldable pub store_put_text : Str → Str → Store → Store × Result LanaError (Unit {0})
unfolding stage encode_string
store_put_text key text s =
    if not s.journal
    then (s, err LanaError.invalid_state)
    else (if length key == 0 then (s, err LanaError.key) else elim (encode_string text) [
      | ok bytes ↦ stage key (some bytes) s
      | err e ↦ (s, err e)
      | panic ↦ (s, panic)
    ])

module _ {V : Type 0} (decode_bytes : List ℕ → Result LanaError V) where
  unfoldable pub store_get : Str → Store → Result LanaError V
  unfolding get_bytes
  store_get key s = get_bytes key s >>= decode_bytes

  -- The test for an attempt that is stored under the key.
  unfoldable pub unless_stored : Result LanaError V → Result LanaError (Unit {0})
  unless_stored (ok _) = err LanaError.conflict
  unless_stored (err LanaError.not_found) = ok tt
  unless_stored (err e) = err e
  unless_stored panic = panic

  unfoldable pub store_attempt : EffectAttempt → Bool → Store → Store × Result LanaError (Unit {0})
  unfolding is_storable attempt_key attempt_json store_get unless_stored store_put_text
  store_attempt a allow_overwrite s =
      let key = attempt_key a.decision_id a.attempt_id in
      if not (is_storable a)
      then (s, err LanaError.schema)
      else elim (if allow_overwrite then ok tt else unless_stored (store_get key s)) [
        | ok _ ↦ store_put_text key (attempt_json a) s
        | err e ↦ (s, err e)
        | panic ↦ (s, panic)
      ]

  -- `store_attempt` and the commit after it.
  unfoldable pub commit_attempt :
      Write → Replace → EffectAttempt → Bool → Store → Disk → Outcome RevisionInfo
  unfolding store_attempt store_commit
  commit_attempt write swap a allow_overwrite s d =
      let (s₁, stored) = store_attempt a allow_overwrite s in
      elim stored [
        | ok _ ↦ store_commit write swap s₁ d
        | err e ↦ (s₁, d, err e)
        | panic ↦ (s₁, d, panic)
      ]

-- What a call takes from outside: the two readings of the clock, and how the writes of the two
-- commits go.
pub record Surroundings : Type 0 where
  pub started : Option ℕ
  pub ended : Option ℕ
  pub first_write : Write
  pub first_swap : Replace
  pub last_write : Write
  pub last_swap : Replace

-- The store, the disk and the result of a call, and the disk at the time when the executor was
-- called, if it was.
pub record Run (Answer : Type 0) : Type 0 where
  pub store : Store
  pub disk : Disk
  pub called : Option Disk
  pub answer : Result LanaError (Answer × EffectAttempt)

abbrev pub pending_attempt : Decision → Str → ℕ → ℕ → EffectAttempt
pending_attempt decision effect attempt_id started = record {
  schema_version = 1;
  attempt_id = attempt_id;
  decision_id = decision.decision_id;
  effect_desc = effect;
  target = some decision.target;
  status = EffectStatus.pending;
  start_time = started;
  end_time = 0;
  failure_reason = [];
}

-- The attempt after the execution: its status and the name of its error.
unfoldable pub ended_attempt :
    {Answer : Type 0} → EffectAttempt → ℕ → Result LanaError Answer → EffectAttempt
unfolding error_name
ended_attempt a ended (ok _) = record a { status = EffectStatus.succeeded; end_time = ended }
ended_attempt a ended (err e) = record a {
  status = EffectStatus.failed;
  end_time = ended;
  failure_reason = lit (error_name e);
}
ended_attempt a ended panic = a

module _ {V Plan Answer : Type 0} (decode_bytes : List ℕ → Result LanaError V)
    (executor : Plan → Result LanaError Answer) where
  -- From the second reading of the clock on.
  unfoldable pub finish_attempt :
      Surroundings → EffectAttempt → Result LanaError Answer → Store → Disk → Run Answer
  unfolding ended_attempt commit_attempt
  finish_attempt k a execution s d = elim k.ended [
    | none ↦ record { store = s; disk = d; called = some d; answer = err LanaError.io }
    | some ended ↦
        let last = ended_attempt a ended execution in
        let (s₁, d₁, committed) =
          commit_attempt decode_bytes k.last_write k.last_swap last true s d in
        record {
          store = s₁;
          disk = d₁;
          called = some d;
          answer = committed >>= λ info. execution >>= λ value. ok (value, last);
        }
  ]

  -- From the call of the executor on.
  unfoldable pub execute : Surroundings → EffectAttempt → Plan → Store → Disk → Run Answer
  unfolding finish_attempt
  execute k a plan s d = elim (executor plan) [
    | ok value ↦ finish_attempt k a (ok value) s d
    | err e ↦ finish_attempt k a (err e) s d
    | panic ↦ record { store = s; disk = d; called = some d; answer = panic }
  ]

  -- From the pending attempt on.
  unfoldable pub attempt_effect : Surroundings → EffectAttempt → Plan → Store → Disk → Run Answer
  unfolding commit_attempt execute
  attempt_effect k a plan s d =
      let (s₁, d₁, committed) =
        commit_attempt decode_bytes k.first_write k.first_swap a false s d in
      elim committed [
        | ok info ↦ execute k a plan s₁ d₁
        | err e ↦ record { store = s₁; disk = d₁; called = none; answer = err e }
        | panic ↦ record { store = s₁; disk = d₁; called = none; answer = panic }
      ]

  unfoldable pub effect_execute_attempt :
      Surroundings → Decision → ℕ → Plan → Store → Disk → Run Answer
  unfolding attempt_effect
  effect_execute_attempt k decision attempt_id plan s d =
      let refused : Run Answer = record {
        store = s;
        disk = d;
        called = none;
        answer = err LanaError.capability;
      } in
      let unclocked : Run Answer = record {
        store = s;
        disk = d;
        called = none;
        answer = err LanaError.io;
      } in
      elim decision.outcome [
        | PolicyOutcome.refuse ↦ refused
        | PolicyOutcome.request_more_evidence ↦ refused
        | PolicyOutcome.authorize ↦ elim decision.effect [
          | none ↦ refused
          | some effect ↦ if attempt_id == 0 then refused else elim k.started [
            | none ↦ unclocked
            | some started ↦
                attempt_effect k (pending_attempt decision effect attempt_id started) plan s d
          ]
        ]
      ]

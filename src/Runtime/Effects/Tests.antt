-- ===== src/Runtime/Effects/Tests.antt =====
-- A run of an effect's attempt, and the theorems on it.
use lana.Prelude.{ℕ, false, none, some, List, [], Result, ok, err, ◌≡◌, refl}
use lana.Bytecode.Error.{LanaError}
use lana.Bytecode.Objects.Text.{Str, lit}
use lana.Runtime.Samples.{any_text, no_snapshot, fresh, fresh_disk, fresh-IsDurable}
use lana.Runtime.Words.{be_bytes}
use lana.Runtime.Digest.{sha256}
use lana.Runtime.Payload.{mutation_bytes, build_payload}
use lana.Runtime.Store.{Store, get_bytes}
use lana.Runtime.Journal.{Disk, Write, Replace, opened, open_disk}
use lana.Runtime.Journal.Chain.{recovered}
use lana.Runtime.Codec.{encode_string}
use lana.Runtime.Effects.{
  PolicyOutcome, Decision, Surroundings, Run, attempt_key, effect_execute_attempt,
}
use lana.Runtime.Effects.Started.{pending_record}
use lana.Runtime.Effects.Once.{get_bytes-effect_execute_attempt, effect_execute_attempt-once}

abbrev grant : Decision
grant = record {
  schema_version = 1;
  decision_id = 7;
  policy_id = lit "p";
  policy_version = [];
  target = lit "t";
  scope = lit "s";
  input_revision = 0;
  evidence_ids = none;
  derivation_ids = none;
  relationship_resolution = none;
  outcome = PolicyOutcome.authorize;
  effect = some (lit "grant");
  evaluation_time = 0;
  reason = lit "r";
  requested_evidence = none;
}

-- The clock is read twice, and the last commit breaks off.
abbrev surroundings : Surroundings
surroundings = record {
  started = some 10;
  ended = some 11;
  first_write = Write.through;
  first_swap = Replace.replaced;
  last_write = Write.broken 70 false;
  last_swap = Replace.replaced;
}

-- Stored values are kept as bytes, and the executor fails.
abbrev keep : List ℕ → Result LanaError (List ℕ)
keep bytes = ok bytes

abbrev fails : ℕ → Result LanaError ℕ
fails plan = err LanaError.network

abbrev run : Run ℕ
run = effect_execute_attempt keep fails surroundings grant 1 5 fresh fresh_disk

-- The disk when the executor is called.
abbrev at_call : Disk
at_call = elim run.called [ none ↦ fresh_disk | some d ↦ d ]

run-called : run.called ≡ some at_call
unfolding effect_execute_attempt opened recovered mutation_bytes build_payload sha256 be_bytes
run-called = refl

get_bytes-effect_execute_attempt_example :
    (effect : Str) × (started : ℕ) × (PolicyOutcome.authorize ≡ PolicyOutcome.authorize)
    × (some (lit "grant") ≡ some effect)
    × (some 10 ≡ some started)
    × ((s' : Store) × (d' : Disk) × (value : List ℕ) × (open_disk any_text no_snapshot
            Replace.replaced at_call
          ≡ ok (s', d'))
        × (get_bytes (attempt_key 7 1) s' ≡ ok value)
        × (encode_string (pending_record 1 grant effect started) ≡ ok value))
unfolding opened recovered
get_bytes-effect_execute_attempt_example =
    get_bytes-effect_execute_attempt keep fails any_text no_snapshot surroundings grant 1 5 fresh
      fresh_disk [] fresh-IsDurable tt refl at_call run-called

effect_execute_attempt-once_example :
    (s' : Store) × (d' : Disk) × (open_disk any_text no_snapshot Replace.replaced run.disk
      ≡ ok (s', d'))
    × ((effect_execute_attempt keep fails surroundings grant 1 6 s' d').called ≡ none)
unfolding opened recovered
effect_execute_attempt-once_example =
    effect_execute_attempt-once keep fails (λ bytes h. cc) any_text no_snapshot surroundings
      surroundings grant 1 5 6 fresh fresh_disk [] fresh-IsDurable tt refl at_call run-called

-- ===== src/Vm/Values.antt =====
-- `Value` of vm/rust/lana-vm/src/value.rs, `State` of state.rs and `History` of vm.rs beside it. An
-- `Arc` is the address of what it points to, an `f64` its 64 bits, a string its UTF-8 bytes.
use lana.Prelude.{ℕ, Bool, Option, List, []}
use lana.Bytecode.Chunk

pub record State : Type 0 where
  pub p : ℕ
  pub d_re : ℕ
  pub d_im : ℕ

pub record Indexes : Type 0 where
  pub has_timestamp : Bool
  pub has_source : Bool
  pub has_weight : Bool
  pub has_confidence : Bool
  pub timestamp : ℕ
  pub weight : ℕ
  pub confidence : ℕ
  pub source : Option (List ℕ)

pub record StateValue : Type 0 where
  pub state : State
  pub indexes : Indexes

pub data ValueKind : Type 0 where
  null : ValueKind
  number : ℕ → ValueKind
  bool : Bool → ValueKind
  string : List ℕ → ValueKind
  state : StateValue → ValueKind
  distribution : ℕ → ℕ → ValueKind
  sample : ℕ → ValueKind
  joint kernel network array : ℕ → ValueKind
  function : ℕ → ValueKind
  task state_dist map possibility path_set capability adt tensor : ℕ → ValueKind
  n_qubit_state povm channel observable : ℕ → ValueKind
  lazy : ℕ → ℕ → ValueKind
  generator future set regex optimizer training_result : ℕ → ValueKind
  inference_algorithm posterior dataset object_value class_object : ℕ → ValueKind

pub record Value : Type 0 where
  pub kind : ValueKind
  pub derivation : Option ℕ
  pub reactive : Option ℕ
  pub claim : Option ℕ
  pub planned_effect : Option ℕ

-- The constructors `Value::null`, `Value::number` and so on
abbrev pub plain : ValueKind → Value
plain kind = record {
  kind = kind;
  derivation = Option.none;
  reactive = Option.none;
  claim = Option.none;
  planned_effect = Option.none;
}

-- `From<&lana_bytecode::Value>`
unfoldable pub from_constant : Chunk.Value → Value
from_constant Chunk.Value.null = plain ValueKind.null
from_constant (Chunk.Value.number n) = plain (ValueKind.number n)
from_constant (Chunk.Value.bool b) = plain (ValueKind.bool b)
from_constant (Chunk.Value.string s) = plain (ValueKind.string s)

pub data HistoryPolicy : Type 0 where
  none latest duration : HistoryPolicy

pub record History : Type 0 where
  pub policy : HistoryPolicy
  pub amount : ℕ
  pub versions : List StateValue

-- `History::default()`
abbrev pub no_history : History
no_history = record { policy = HistoryPolicy.none; amount = 0; versions = [] }

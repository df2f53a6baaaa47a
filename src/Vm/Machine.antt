-- ===== src/Vm/Machine.antt =====
-- `Frame` and `Vm` of vm/rust/lana-vm/src/vm.rs, with the fields that the plain instructions use:
-- frames of generators, futures and object methods are made by other instructions only. The
-- current frame, the last of the source's vector, is the first of the list.
use lana.Prelude.{
  ℕ, ◌*◌, ◌-◌, ◌^◌, Bool, ltb, if◌then◌else◌, Option, List, [], ◌∷◌, length, set, replicate, Result,
  ok, err, panic, ◌>>=◌, ◌>>◌, require,
}
use lana.Bytecode.Error.{LanaError}
use lana.Heap.State
use lana.Heap.State.{reserve, release, Admitted}
use lana.Vm.Values.{Value, ValueKind, plain, History, no_history}

pub record Frame : Type 0 where
  pub registers : List Value
  pub histories : List History
  pub return_ip : ℕ
  pub return_register : ℕ
  pub function : ℕ
  -- the bytes of `_allocation`
  pub allocation : ℕ

-- `VmError`, without its texts and details
pub record VmError : Type 0 where
  pub code : LanaError
  pub ip : ℕ
  pub opcode : ℕ
  pub line : ℕ

pub record Vm : Type 0 where
  pub ip : ℕ
  pub running : Bool
  pub instruction_limit : ℕ
  pub instruction_count : ℕ
  pub memory_limit : ℕ
  pub heap : State.State
  pub frames : List Frame
  pub max_registers : List ℕ
  pub result : Value
  pub error : Option VmError
  pub cancelled : Bool
  pub breakpoint_line : Option ℕ
  pub breakpoint_hit : Bool
  pub pure_callback_depth : ℕ

-- A failed instruction leaves the machine as it is then.
pub record Fault : Type 0 where
  pub code : LanaError
  pub machine : Vm

abbrev pub Run {ℓ} : Type ℓ → Type ℓ
Run A = Result Fault A

abbrev pub fault {ℓ} : {A : Type ℓ} → LanaError → Vm → Run A
fault code vm = err (record { code = code; machine = vm })

-- `u32::MAX`
abbrev pub no_function : ℕ
no_function = 2 ^ 32 - 1

-- `Frame::new`, where the allocator does not fail
unfoldable pub new_frame : ℕ → Frame
new_frame register_count = record {
  registers = replicate register_count (plain ValueKind.null);
  histories = replicate register_count no_history;
  return_ip = 0;
  return_register = 0;
  function = no_function;
  allocation = 0;
}

-- `self.frames.last().expect(…)`
unfoldable pub current_frame : Vm → Run Frame
current_frame vm = elim vm.frames [ [] ↦ panic | frame ∷ _ ↦ ok frame ]

-- A frame in the place of the current one.
unfoldable pub with_current : Vm → Frame → Vm
with_current vm frame = elim vm.frames [ [] ↦ vm | _ ∷ rest ↦ record vm { frames = frame ∷ rest } ]

-- `values[index] = value`, which panics out of range
unfoldable pub store {ℓ} : {A : Type ℓ} → List A → ℕ → A → Run (List A)
store values index value = if ltb index (length values) then ok (set values index value) else panic

-- The reservation of `Frame::charged`, as the new heap and the bytes held
unfoldable pub admitted : Vm → State.State × ℕ × Admitted → Run (Vm × ℕ)
admitted vm (heap, held, ok _) = ok (record vm { heap = heap }, held)
admitted vm (heap, held, err code) = fault code (record vm { heap = heap })
admitted vm (heap, held, panic) = panic

module _ (slot : ℕ) where
  -- `Frame::charged`; `slot` is `size_of::<Value>() + size_of::<History>()`
  unfoldable pub charged : Vm → ℕ → Run (Vm × Frame)
  unfolding admitted new_frame
  charged vm register_count = do
    require (ltb (register_count * slot) (2 ^ 64)) (record { code = LanaError.oom; machine = vm })
    (vm₁, held) ← admitted vm (reserve vm.heap (register_count * slot))
    ok (vm₁, record (new_frame register_count) { allocation = held })

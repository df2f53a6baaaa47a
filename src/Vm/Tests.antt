-- ===== src/Vm/Tests.antt =====
-- Runs of the machine, and the theorems at inputs that meet their hypotheses.
use lana.Prelude.{
  ℕ, subst, ◌+◌, ◌≤◌, true, false, List, [], ◌∷◌, some, none, get_elem?, length, All, ◌≡◌, refl, ok,
  arith, ◌==◌, Option, Result,
}
use lana.Bytecode.Opcode.{OpCode, discriminant, version_known}
use lana.Bytecode.Error.{LanaError}
use lana.Bytecode.Float.{F64}
use lana.Bytecode.Chunk
use lana.Bytecode.Chunk.{Instruction, Function, Chunk}
use lana.Bytecode.Check.{verify_instruction}
use lana.Bytecode.Objects.Descriptor.{Serde}
use lana.Bytecode.Objects.Access.{sort_entries, enumerate, region_end, ends_body, has_target}
use lana.Bytecode.Verifier.{verify, verify_functions, verify_code, max_opcode_for_version}
use lana.Bytecode.Verifier.Verified.{verify-Verified}
use lana.Bytecode.Check.Operands.{Accepts}
use lana.Bytecode.Verifier.Containment.{Reach}
use lana.Heap.State.{new_heap, reserve, release}
use lana.Vm.Registers.{instruction_max_register}
use lana.Vm.Registers.Operands.{Below, Contains, instruction_max_register-Below}
use lana.Vm.Frames.{suspends, falls_through, some_leaves, code_max, compute_max_registers}
use lana.Vm.Frames.Rooms.{HasRoom, Complete, compute_max_registers-Complete}
use lana.Vm.Stack.{Safe}
use lana.Vm.Frames.Named.{compute_max_registers-Below}
use lana.Vm.Values.{Value, ValueKind, plain}
use lana.Vm.Machine.{Frame, Vm, Run, new_frame}
use lana.Vm.Execute.{is_plain, call, execute}
use lana.Vm.Execute.Safety.{execute-Safe}
use lana.Vm.Execute.Entry.{Entered, call-Entered}
use lana.Vm.Execute.Balance.{here, Returned, call-Returned}
use lana.Vm.Dispatch.{machine, run, new}
use lana.Vm.Nested.Restored.{Restored}
use lana.Vm.Dispatch.Returns.{IsPlain, Returns, entry-IsWellFormed, run-Returns}

-- Operations on floats that the runs below do not reach.
abbrev no_floats : F64
no_floats = record {
  is_finite = λ x. true;
  lt = λ x y. false;
  eq = λ x y. x == y;
  add = λ x y. x + y;
  mul = λ x y. x;
  div = λ x y. x;
  sqrt = λ x. x;
}

-- A JSON reader that takes no text for JSON.
abbrev no_json : Serde
no_json = record {
  Json = ℕ;
  from_str = λ s. none;
  to_string = λ j. none;
  get = λ k j. none;
  as_str = λ j. none;
  as_array = λ j. none;
  object_len = λ j. none;
  from_value = λ j. none;
}

abbrev instr : OpCode → ℕ → ℕ → ℕ → ℕ → Instruction
instr op a b c imm = record { opcode = op; a = a; b = b; c = c; imm = imm; line = 1 }

abbrev function : ℕ → ℕ → ℕ → Function
function entry registers arity = record {
  name = b'f' ∷ [];
  entry = entry;
  register_count = registers;
  arity = arity;
}

-- A call of the identity, whose result goes to register 1.
abbrev calling : Chunk
calling = record {
  version = 2;
  entry = 0;
  code =
      instr OpCode.load_const 0 0 0 0
      ∷ instr OpCode.call 1 1 0 1
      ∷ instr OpCode.return 1 0 0 0
      ∷ instr OpCode.return 0 0 0 0
      ∷ [];
  constants = Chunk.Value.bool true ∷ [];
  functions = function 0 1 0 ∷ function 3 1 1 ∷ [];
}

calling-verify : verify no_floats no_json calling ≡ ok tt
unfolding verify verify_functions verify_code max_opcode_for_version discriminant version_known
    verify_instruction
calling-verify = refl

calling-IsPlain : IsPlain calling
unfolding is_plain
calling-IsPlain = record { version = omega arith; code = (refl, (refl, (refl, (refl, tt)))) }

-- The other instructions, which do nothing here.
abbrev no_others : Instruction → Vm → Run Vm
no_others i vm = ok vm

call-verify : verify_instruction no_floats calling (instr OpCode.call 1 1 0 1) ≡ ok tt
unfolding verify_instruction
call-verify = refl

-- What a run gives, with its code.
abbrev outcome : Option (Run (LanaError × Vm)) → Option (LanaError × ValueKind)
outcome (some (ok (code, last))) = some (code, last.result.kind)
outcome _ = none

abbrev run_new : Chunk → Result LanaError Vm → Option (LanaError × ValueKind)
unfolding run
run_new chunk (ok vm) = outcome (run 200 no_others chunk no_floats no_json 5 vm)
run_new chunk _ = none

calling_result : run_new calling (new calling) ≡ some (LanaError.ok, ValueKind.bool true)
unfolding new run verify verify_functions verify_code max_opcode_for_version discriminant
    version_known verify_instruction instruction_max_register sort_entries enumerate region_end
    falls_through ends_body some_leaves has_target code_max reserve release
calling_result = refl

abbrev yes_value : Value
yes_value = plain (ValueKind.bool true)

abbrev no_value : Value
no_value = plain ValueKind.null

-- The machine before its CALL, after it, and after the RETURN of the callee.
abbrev before : Vm
unfolding machine new_heap new_frame
before = record (machine calling (1 ∷ 1 ∷ [])) {
  ip = 2;
  frames = record (new_frame 2) { registers = yes_value ∷ no_value ∷ [] } ∷ [];
}

instruction_max_register-Below_example : Below OpCode.call (instr OpCode.call 1 1 0 1) 2
unfolding instruction_max_register
instruction_max_register-Below_example =
    instruction_max_register-Below no_floats calling (instr OpCode.call 1 1 0 1) 2 call-verify
      (omega arith)

compute_max_registers-Below_example :
    (sizes : List ℕ) × (compute_max_registers calling ≡ ok sizes)
    × (length sizes ≡ 2)
    × ((k : ℕ) (f : Function)
        → get_elem? calling.functions k ≡ some f
        → (n : ℕ) × (get_elem? sizes k ≡ some n)
          × (f.arity ≤ n)
          × (n ≤ 256)
          × (calling.version ≡ 6 → f.register_count ≤ n)
          × ((ip : ℕ) (i : Instruction)
              → Reach calling f.entry ip
              → get_elem? calling.code ip ≡ some i
              → Contains i.opcode i n))
    × All (λ i. suspends i.opcode ≡ true → HasRoom calling sizes i) calling.code
compute_max_registers-Below_example =
    compute_max_registers-Below no_floats no_json calling calling-verify

run-Returns_example :
    (vm : Vm) × (new calling ≡ ok vm)
    × Returns (run 200 no_others calling no_floats no_json 50000001 vm)
run-Returns_example =
    run-Returns 200 no_others no_floats calling no_json 50000001 calling-verify calling-IsPlain
      (omega arith)

-- The frame of the callee.
abbrev callee : Frame
unfolding new_frame
callee = record (new_frame 1) {
  registers = yes_value ∷ [];
  return_ip = 2;
  return_register = 1;
  function = 1;
  allocation = 200;
}

abbrev inside : Vm
inside = record before {
  ip = 3;
  heap = (reserve before.heap 200).0;
  frames = callee ∷ before.frames;
}

called : call 200 calling (instr OpCode.call 1 1 0 1) before ≡ ok inside
unfolding call reserve before callee
called = refl

call-Entered_example : Entered calling (instr OpCode.call 1 1 0 1) before inside
call-Entered_example = call-Entered 200 calling (instr OpCode.call 1 1 0 1) before inside called

abbrev back : Vm
unfolding new_frame
back = record before {
  heap = release inside.heap 200;
  frames = record (new_frame 2) { registers = yes_value ∷ yes_value ∷ [] } ∷ [];
}

returned :
    execute 200 no_others calling (instr OpCode.return 0 0 0 0) (record inside { ip = 4 }) ≡ ok back
unfolding execute reserve release before back callee
returned = refl

call-Returned_example : Returned before.frames 2 1 back
unfolding is_plain before back callee
call-Returned_example =
    call-Returned 200 no_others calling (instr OpCode.call 1 1 0 1) (instr OpCode.return 0 0 0 0)
      before inside inside back called here refl returned (omega arith)

calling_sizes : compute_max_registers calling ≡ ok (2 ∷ 1 ∷ [])
unfolding compute_max_registers instruction_max_register sort_entries enumerate region_end
    falls_through ends_body some_leaves has_target code_max
calling_sizes = refl

sizes-eq : (sizes : List ℕ) → compute_max_registers calling ≡ ok sizes → sizes ≡ 2 ∷ 1 ∷ []
sizes-eq sizes e = cc calling_sizes

calling-Complete : Complete calling (2 ∷ 1 ∷ [])
calling-Complete =
    let (sizes, computed, c, _) =
      compute_max_registers-Complete no_floats calling no_json calling-verify in
    let same = sizes-eq sizes computed in subst (Complete calling) same c

abbrev entry : Vm
unfolding machine
entry = machine calling (2 ∷ 1 ∷ [])

first-Accepts : Accepts no_floats OpCode.load_const calling (instr OpCode.load_const 0 0 0 0)
first-Accepts = ((verify-Verified no_floats no_json calling).0 calling-verify).code.0.accepts

execute-Safe_example :
    Safe calling
      (record entry { ip = 1 })
      (execute 200 no_others calling (instr OpCode.load_const 0 0 0 0) (record entry { ip = 1 }))
unfolding is_plain entry
execute-Safe_example =
    execute-Safe 200 no_others no_floats calling entry (instr OpCode.load_const 0 0 0 0) refl
      (entry-IsWellFormed 200 no_others no_floats calling (2 ∷ 1 ∷ []) calling-Complete) refl
      first-Accepts

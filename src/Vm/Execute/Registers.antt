-- ===== src/Vm/Execute/Registers.antt =====
-- The plain instructions of vm/rust/lana-vm/src/vm.rs that stay in their frame.
use lana.Prelude.{
  length-set, ℕ, ◌<◌, Bool, not, List, ◌∷◌, length, get_elem?-some, set, some, none, ◌≡◌, ok, err,
  refl, arith, subst, sym, lt→ltb, if_either, if◌then◌else◌,
}
use lana.Bytecode.Error.{LanaError}
use lana.Bytecode.Chunk.{Instruction, Chunk}
use lana.Vm.Values.{Value, ValueKind, plain, from_constant}
use lana.Vm.Machine.{Frame, Vm, current_frame, with_current, store}
use lana.Vm.Outcome.{Outcome}
use lana.Vm.Stack.{IsWellFormed, Safe, SameShape, replace-IsWellFormed}
use lana.Vm.Execute.{
  write_register, read_register, load_const, move, load_function, boolean, jump_if,
}

pub store-set {ℓ} :
    {A : Type ℓ} (xs : List A) (k : ℕ) (x : A) → k < length xs → store xs k x ≡ ok (set xs k x)
unfolding store
store-set xs k x h = rw (lt→ltb k (length xs) h)

pub top-eq :
    (vm : Vm) (f : Frame) (rest : List Frame) → vm.frames ≡ f ∷ rest → current_frame vm ≡ ok f
unfolding current_frame
top-eq vm f rest e = rw e

pub with_current-eq :
    (vm : Vm) (f g : Frame) (rest : List Frame)
    → vm.frames ≡ f ∷ rest
    → with_current vm g ≡ record vm { frames = g ∷ rest }
unfolding with_current
with_current-eq vm f g rest e = rw e

module _ (chunk : Chunk) (vm : Vm) (f : Frame) (rest : List Frame) (e : vm.frames ≡ f ∷ rest)
    (w : IsWellFormed chunk vm) where
  -- A frame of the same shape is put in the place of the current one.
  with_current-Safe : (g : Frame) → SameShape f g → Safe chunk vm (ok (with_current vm g))
  with_current-Safe g same =
      subst (λ m. Safe chunk vm (ok m)) (sym (with_current-eq vm f g rest e))
        (refl, refl, λ runs. replace-IsWellFormed chunk vm f g rest e same w)

  pub write_register-Safe :
      (index : ℕ) (value : Value)
      → index < length f.registers
      → Safe chunk vm (write_register vm index value)
  unfolding write_register
  write_register-Safe index value h =
      rw (top-eq vm f rest e, store-set f.registers index value h)
        (with_current-Safe (record f { registers = set f.registers index value })
          (record {
            registers = length-set f.registers index value;
            histories = refl;
            return_ip = refl;
            return_register = refl;
            allocation = refl;
          }))

  pub load_const-Safe :
      (i : Instruction)
      → i.a < length f.registers
      → i.imm < length chunk.constants
      → Safe chunk vm (load_const chunk i vm)
  unfolding load_const
  load_const-Safe i h small =
      let (constant, found) = get_elem?-some chunk.constants i.imm small in
      rw found (write_register-Safe i.a (from_constant constant) h)

  pub load_function-Safe :
      (i : Instruction) → i.a < length f.registers → Safe chunk vm (load_function i vm)
  unfolding load_function
  load_function-Safe i h = write_register-Safe i.a (plain (ValueKind.function i.b)) h

  pub move-Safe :
      (i : Instruction)
      → i.a < length f.registers
      → i.b < length f.registers
      → length f.histories ≡ length f.registers
      → Safe chunk vm (move i vm)
  unfolding move
  move-Safe i to from len =
      let (value, at_b) = get_elem?-some f.registers i.b from in
      let (history, past) = get_elem?-some f.histories i.b (omega arith) in
      let to' : i.a < length f.histories = omega arith in
      rw
        (
          top-eq vm f rest e,
          at_b,
          past,
          store-set f.registers i.a value to,
          store-set f.histories i.a history to',
        )
        (with_current-Safe
          (record f {
            registers = set f.registers i.a value;
            histories = set f.histories i.a history;
          })
          (record {
            registers = length-set f.registers i.a value;
            histories = length-set f.histories i.a history;
            return_ip = refl;
            return_register = refl;
            allocation = refl;
          }))

  -- Both ways of a conditional jump.
  pub jump_if-Safe :
      (sense : Bool) (i : Instruction)
      → i.a < length f.registers
      → IsWellFormed chunk (record vm { ip = i.imm })
      → Safe chunk vm (jump_if sense i vm)
  unfolding jump_if read_register boolean
  jump_if-Safe sense i h jumped =
      let (condition, found) = get_elem?-some f.registers i.a h in
      rw (top-eq vm f rest e, found) (go condition.kind)
    where
      go :
          (kind : ValueKind)
          → Safe chunk vm (elim (boolean kind) [
            | none ↦ err (record { code = LanaError.type; machine = vm })
            | some b ↦ ok (if (if sense then b else not b) then record vm { ip = i.imm } else vm)
          ])
      go (ValueKind.bool b) =
          if_either (λ m. Safe chunk vm (ok m)) (if sense then b else not b)
            (refl, refl, λ runs. jumped) (refl, refl, λ runs. w)
      go _ = (Outcome.type, refl)

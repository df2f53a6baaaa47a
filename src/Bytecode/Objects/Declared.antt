-- ===== src/Bytecode/Objects/Declared.antt =====
-- The registers of an object opcode, for the checks of an instruction in
-- vm/rust/lana-bytecode/src/objects.rs.
use lana.Prelude.{
  ℕ, ◌+◌, ◌<◌, ◌≤◌, Bool, not, ◌&&◌, ltb, leb, Option, [], ◌∷◌, All, ◌≡◌, ok, ok_or, require,
  >>=-eq-ok, arith, Bool-cases, inl, inr,
}
use lana.Bytecode.Opcode.{OpCode, discriminant}
use lana.Bytecode.Chunk.{Function, Instruction}
use lana.Bytecode.Check.Operands.{a, b, operand, object_slots, object_ranges}
use lana.Bytecode.Objects.Descriptor.{Descriptor}
use lana.Bytecode.Objects.Members.{Descriptors, Owners, descriptor_at}
use lana.Bytecode.Objects.Access.{
  check_register, arguments_fit, check_arguments, object_arm, check_object, check_instruction,
  refers_to_function, is_owned, has_target,
}

-- The registers that an object opcode names are among the first `count`; the other opcodes name none
-- here.
pub record Declared (op : OpCode) (count : ℕ) (i : Instruction) : Type 0 where
  pub registers : All (λ s. operand i s < count) (object_slots op)
  pub runs : All (λ r. 0 < operand i r.1 → operand i r.0 + operand i r.1 ≤ count) (object_ranges op)

arguments_declared :
    (f : Function) (i : Instruction)
    → check_arguments f i ≡ ok tt
    → 0 < i.imm
    → i.b + i.imm ≤ f.register_count
unfolding check_arguments arguments_fit
arguments_declared f i h some_arguments = ground arith

register_declared : (f : Function) (r : ℕ) → check_register f r ≡ ok tt → r < f.register_count
unfolding check_register
register_declared f r h = ground arith

module _ (ds : Descriptors) (owners : Owners) (f : Function) (i : Instruction) where
  module _ (first : i.a < f.register_count) where
    with_arguments :
        check_arguments f i ≡ ok tt
        → Declared OpCode.value_new f.register_count i
          × Declared OpCode.object_new f.register_count i
    with_arguments h = (
      record { registers = (first, tt); runs = (arguments_declared f i h, tt) },
      record { registers = (first, tt); runs = (arguments_declared f i h, tt) },
    )

    with_receiver :
        check_register f i.b ≡ ok tt → All (λ s. operand i s < f.register_count) (a ∷ b ∷ [])
    with_receiver h = (first, (register_declared f i.b h, tt))

    object_arm-Declared :
        (op : OpCode) (own : Bool) (fi : ℕ) (d : Descriptor)
        → object_arm ds owners op own fi f d i ≡ ok tt
        → Declared op f.register_count i
    unfolding object_arm
    object_arm-Declared OpCode.value_new own fi d h =
        let (_, run, _) = >>=-eq-ok (check_arguments f i) _ h in (with_arguments run).0
    object_arm-Declared OpCode.object_new own fi d h =
        let (_, run, _) = >>=-eq-ok (check_arguments f i) _ h in (with_arguments run).1
    object_arm-Declared OpCode.oo_get own fi d h =
        let (_, second, _) = >>=-eq-ok (check_register f i.b) _ h in
        record { registers = with_receiver second; runs = tt }
    object_arm-Declared OpCode.oo_set own fi d h =
        let (_, second, _) = >>=-eq-ok (check_register f i.b) _ h in
        record { registers = with_receiver second; runs = tt }
    object_arm-Declared OpCode.oo_call own fi d h =
        let (_, second, _) = >>=-eq-ok (check_register f i.b) _ h in
        record { registers = with_receiver second; runs = tt }
    object_arm-Declared OpCode.oo_static_call own fi d h =
        let (_, second, _) = >>=-eq-ok (check_register f i.b) _ h in
        record { registers = with_receiver second; runs = tt }
    object_arm-Declared OpCode.oo_as_interface own fi d h =
        let (_, second, _) = >>=-eq-ok (check_register f i.b) _ h in
        record { registers = with_receiver second; runs = tt }
    object_arm-Declared op own fi d h = record { registers = tt; runs = tt }

  check_object-Declared :
      (fi : ℕ) (owner : Option ℕ)
      → check_object ds owners fi f owner i ≡ ok tt
      → Declared i.opcode f.register_count i
  unfolding check_object
  check_object-Declared fi owner h =
      let (d, _, h₁) = >>=-eq-ok (ok_or (descriptor_at ds i.c) _) _ h in
      let (_, first, h₂) = >>=-eq-ok (check_register f i.a) _ h₁ in
      object_arm-Declared (register_declared f i.a first) i.opcode _ fi d h₂

-- Below the object opcodes there is nothing to declare.
below-Declared :
    (op : OpCode) (count : ℕ) (i : Instruction)
    → discriminant op < discriminant OpCode.value_new
    → Declared op count i
unfolding discriminant
below-Declared op count i h = ground arith

-- An instruction that passed its check names registers that its function declares.
pub check_instruction-Declared :
    (ds : Descriptors) (owners : Owners) (fi : ℕ) (f : Function) (owner : Option ℕ) (start end : ℕ)
    (i : Instruction)
    → check_instruction ds owners fi f owner start end i ≡ ok tt
    → Declared i.opcode f.register_count i
unfolding check_instruction
check_instruction-Declared ds owners fi f owner start end i h =
    let (_, _, h₁) =
      >>=-eq-ok (require (not (refers_to_function i.opcode && is_owned owners i.b)) _) _ h in
    let (_, _, h₂) =
      >>=-eq-ok (require (not (has_target i.opcode && not (leb start i.imm && ltb i.imm end))) _) _
        h₁ in
    elim (Bool-cases (ltb (discriminant i.opcode) (discriminant OpCode.value_new))) [
      | inl plain ↦ below-Declared i.opcode f.register_count i (ground arith)
      | inr object ↦ check_object-Declared ds owners f i fi owner (rw object at h₂)
    ]

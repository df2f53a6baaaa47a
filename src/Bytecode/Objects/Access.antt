-- ===== src/Bytecode/Objects/Access.antt =====
-- The second half of `verify` in vm/rust/lana-bytecode/src/objects.rs: the code region of each
-- function, and what an instruction of the region may refer to.
use lana.Prelude.{
  ℕ, zero, suc, ◌+◌, ◌-◌, ◌^◌, Bool, true, false, not, ◌&&◌, ◌||◌, ltb, leb, ◌==◌, if◌then◌else◌,
  same_bool, Option, some, none, List, [], ◌∷◌, length, get_elem?, ok, err, panic, ◌>>=◌, ◌>>◌,
  require, ok_or, or_panic, map_err,
}
use lana.Bytecode.Opcode.{OpCode, discriminant}
use lana.Bytecode.Error.{LanaErrorInfo}
use lana.Bytecode.Chunk.{Chunk, Function, Instruction}
use lana.Bytecode.Objects.Text.{lit, str_eq}
use lana.Bytecode.Objects.Descriptor.{Field, Method, Descriptor, Checked, invalid}
use lana.Bytecode.Objects.Members.{Descriptors, Owners, is_some, descriptor_at}

-- `u32::MAX`, the operand that is not there
abbrev pub unused : ℕ
unused = 2 ^ 32 - 1

-- Opcodes whose `b` names a function.
unfoldable pub refers_to_function : OpCode → Bool
refers_to_function OpCode.call = true
refers_to_function OpCode.generator = true
refers_to_function OpCode.async = true
refers_to_function OpCode.load_function = true
refers_to_function OpCode.fork = true
refers_to_function OpCode.bootstrap = true
refers_to_function OpCode.lazy = true
refers_to_function _ = false

-- Opcodes whose `imm` names an instruction.
unfoldable pub has_target : OpCode → Bool
has_target OpCode.jump = true
has_target OpCode.jump_if_true = true
has_target OpCode.jump_if_false = true
has_target OpCode.path_split = true
has_target OpCode.adt_case = true
has_target _ = false

-- Opcodes after which control does not go on to the next instruction.
unfoldable pub ends_body : OpCode → Bool
ends_body OpCode.return = true
ends_body OpCode.halt = true
ends_body OpCode.jump = true
ends_body _ = false

abbrev is_public : List ℕ → Bool
is_public v = str_eq v (lit "public")

some_private : List Field → Bool
unfolding str_eq
some_private [] = false
some_private (f ∷ fs) = not (is_public f.visibility) || some_private fs

find_init : List Method → Option Method
find_init [] = none
find_init (m ∷ ms) = if m.is_init then some m else find_init ms

same_index : Option ℕ → ℕ → Bool
same_index none n = false
same_index (some k) n = k == n

-- Some initializer has the function as its body.
initializes : List Method → ℕ → Bool
unfolding same_index
initializes [] f = false
initializes (m ∷ ms) f = m.is_init && same_index m.function_index f || initializes ms f

-- The closure `register`
unfoldable pub check_register : Function → ℕ → Checked (Unit {0})
check_register f r = require (ltb r f.register_count) (invalid "object register outside function")

-- `b.checked_add(imm).is_none_or(|end| end > register_count)`, negated
unfoldable pub arguments_fit : Function → Instruction → Bool
arguments_fit f i = ltb (i.b + i.imm) (2 ^ 32) && leb (i.b + i.imm) f.register_count

unfoldable pub check_arguments : Function → Instruction → Checked (Unit {0})
unfolding arguments_fit
check_arguments f i =
    if i.imm == 0
    then require (i.b == unused) (invalid "empty constructor requires unused argument register")
    else require (arguments_fit f i) (invalid "constructor arguments outside function")

check_value_new : Bool → Descriptor → Instruction → Checked (Unit {0})
unfolding some_private str_eq
check_value_new own d i =
    require
      (str_eq d.kind (lit "value")
        && (i.imm == length d.fields && (own || not (some_private d.fields))))
      (invalid "invalid or private value constructor")

init_arity : Option Method → ℕ
init_arity none = 0
init_arity (some m) = length m.parameter_types

init_visible : Option Method → Bool
unfolding str_eq
init_visible none = true
init_visible (some m) = is_public m.visibility

check_object_new : Bool → Descriptor → Instruction → Checked (Unit {0})
unfolding find_init init_arity init_visible str_eq
check_object_new own d i =
    let init = find_init d.methods in
    require
      (str_eq d.kind (lit "class") && (i.imm == init_arity init && (own || init_visible init)))
      (invalid "invalid or private object initializer")

-- `setting` says that the opcode is `OoSet`.
check_field : Bool → Bool → ℕ → Descriptor → Instruction → Checked (Unit {0})
unfolding initializes str_eq
check_field setting own function_index d i = do
  field ← ok_or (get_elem? d.fields i.imm) (invalid "invalid object field index")
  require
      ((own || is_public field.visibility)
        && (not setting
            || str_eq d.kind (lit "class")
              && (field.mutable || own && initializes d.methods function_index)))
      (invalid "illegal object field access")

-- `static` says that the opcode is `OoStaticCall`.
check_method : Bool → Bool → Descriptor → Instruction → Checked (Unit {0})
unfolding str_eq
check_method static own d i = do
  m ← ok_or (get_elem? d.methods i.imm) (invalid "invalid object method index")
  require (not m.is_init && (same_bool m.is_static static && (own || is_public m.visibility)))
      (invalid "illegal object method access")

check_interface : Descriptor → Instruction → Checked (Unit {0})
unfolding str_eq
check_interface d i =
    require (str_eq d.kind (lit "interface") && i.imm == unused)
      (invalid "invalid interface conversion")

-- `owners.get(target).is_some_and(Option::is_some)`
unfoldable pub is_owned : Owners → ℕ → Bool
is_owned owners target = elim (get_elem? owners target) [ none ↦ false | some o ↦ is_some o ]

module _ (ds : Descriptors) (owners : Owners) where
  -- The `match` on an object opcode.
  unfoldable pub object_arm :
      OpCode → Bool → ℕ → Function → Descriptor → Instruction → Checked (Unit {0})
  unfolding check_arguments check_value_new check_object_new check_field check_method
      check_interface check_register
  object_arm OpCode.value_new own fi f d i = do check_arguments f i; check_value_new own d i
  object_arm OpCode.object_new own fi f d i = do check_arguments f i; check_object_new own d i
  object_arm OpCode.oo_get own fi f d i = do check_register f i.b; check_field false own fi d i
  object_arm OpCode.oo_set own fi f d i = do check_register f i.b; check_field true own fi d i
  object_arm OpCode.oo_call own fi f d i = do check_register f i.b; check_method false own d i
  object_arm OpCode.oo_static_call own fi f d i = do check_register f i.b; check_method true own d i
  object_arm OpCode.oo_as_interface own fi f d i = do check_register f i.b; check_interface d i
  object_arm _ own fi f d i = err (invalid "invalid object opcode")

  unfoldable pub check_object : ℕ → Function → Option ℕ → Instruction → Checked (Unit {0})
  unfolding object_arm check_register descriptor_at same_index
  check_object fi f owner i = do
    d ← ok_or (descriptor_at ds i.c) (invalid "missing object descriptor constant")
    check_register f i.a
    object_arm i.opcode (same_index owner i.c) fi f d i

  -- The closure `check`, for an instruction of the function with index `fi` and region `start` to
  -- `end`.
  unfoldable pub check_instruction :
      ℕ → Function → Option ℕ → ℕ → ℕ → Instruction → Checked (Unit {0})
  unfolding check_object discriminant
  check_instruction fi f owner start end i = do
    require (not (refers_to_function i.opcode && is_owned owners i.b))
        (invalid "direct call/reference to an object member")
    require (not (has_target i.opcode && not (leb start i.imm && ltb i.imm end)))
        (invalid "jump crosses v6 function ownership")
    if ltb (discriminant i.opcode) (discriminant OpCode.value_new)
        then ok tt
        else check_object fi f owner i

-- `map_err`: the error is placed at its instruction.
unfoldable pub place : ℕ → Instruction → LanaErrorInfo → LanaErrorInfo
unfolding discriminant
place ip i error = record error { ip = ip; opcode = discriminant i.opcode; line = i.line }

-- `sort_by_key(entry)`, which is stable: an indexed function goes before those with its entry.
abbrev pub Entry : Type 0
Entry = ℕ × Function

unfoldable pub insert_entry : Entry → List Entry → List Entry
insert_entry x [] = x ∷ []
insert_entry x (y ∷ ys) =
    let rest = insert_entry x ys in if ltb y.1.entry x.1.entry then y ∷ rest else x ∷ y ∷ ys

unfoldable pub sort_entries : List Entry → List Entry
unfolding insert_entry
sort_entries [] = []
sort_entries (x ∷ xs) = insert_entry x (sort_entries xs)

-- `iter().enumerate()`
unfoldable pub enumerate : ℕ → List Function → List Entry
enumerate k [] = []
enumerate k (f ∷ fs) = (k, f) ∷ enumerate (suc k) fs

-- `windows(2).any(…)`: two neighbours have one entry.
unfoldable pub neighbours_meet : List Entry → Bool
neighbours_meet (x ∷ y ∷ ys) = x.1.entry == y.1.entry || neighbours_meet (y ∷ ys)
neighbours_meet _ = false

unfoldable pub starts_at_zero : List Entry → Bool
starts_at_zero [] = false
starts_at_zero (x ∷ xs) = x.1.entry == 0

-- The entry point is that of a function which no descriptor owns.
unfoldable pub some_entry_free : ℕ → Owners → List Entry → Checked Bool
some_entry_free entry owners [] = ok false
some_entry_free entry owners ((fi, f) ∷ fs) =
    let rest = some_entry_free entry owners fs in
    if f.entry == entry
    then (do owner ← or_panic (get_elem? owners fi); if is_some owner then rest else ok true)
    else rest

-- Where the region of a function ends: at the next entry, or with the code.
unfoldable pub region_end : Chunk → List Entry → ℕ
region_end chunk [] = length chunk.code
region_end chunk ((_, g) ∷ _) = g.entry

-- `code[end - 1]`, which panics at `end` 0 too.
unfoldable pub last_before : List Instruction → ℕ → Checked Instruction
last_before code zero = panic
last_before code (suc e) = or_panic (get_elem? code e)

module _ (chunk : Chunk) (ds : Descriptors) (owners : Owners) where
  -- `for ip in start..end`, with `count` instructions left
  unfoldable pub scan : ℕ → Function → Option ℕ → ℕ → ℕ → ℕ → ℕ → Checked (Unit {0})
  unfolding place
  scan fi f owner start end ip zero = ok tt
  scan fi f owner start end ip (suc count) = do
    i ← or_panic (get_elem? chunk.code ip)
    map_err (place ip i) (check_instruction ds owners fi f owner start end i)
    scan fi f owner start end (suc ip) count

  -- The body of the loop over the functions.
  unfoldable pub check_region : ℕ → Function → ℕ → ℕ → Checked (Unit {0})
  check_region fi f start end = do
    owner ← or_panic (get_elem? owners fi)
    last ← last_before chunk.code end
    require (ends_body last.opcode) (invalid "v6 function may fall through into another body")
    scan fi f owner start end start (end - start)

  unfoldable pub regions_loop : List Entry → Checked (Unit {0})
  regions_loop [] = ok tt
  regions_loop ((fi, f) ∷ rest) = do
    check_region fi f f.entry (region_end chunk rest)
    regions_loop rest

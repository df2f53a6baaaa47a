-- ===== src/Bytecode/Objects/Members.antt =====
-- The first half of `verify` in vm/rust/lana-bytecode/src/objects.rs: type names, the fields,
-- methods and interfaces of each descriptor, and the one owner of each member function.
-- `owners` of the source is a vector that the loops update; here it is passed on.
use Prim.Native.Nat.{bit_and}
use mathlib.Core.Option
use lana.Prelude.{
  ℕ, zero, suc, ◌+◌, ◌-◌, ◌^◌, Bool, true, false, not, ◌&&◌, ◌||◌, leb, ◌==◌, if◌then◌else◌,
  same_bool, Option, some, none, List, [], ◌∷◌, ◌++◌, length, get_elem?, set, ok, err, ◌>>=◌, ◌>>◌,
  require, ok_or, or_panic,
}
use lana.Bytecode.Chunk.{Chunk}
use lana.Bytecode.Objects.Text.{
  Str, lit, str_eq, one_of, strip_prefix, strip_last, identifier, module_of,
}
use lana.Bytecode.Objects.Descriptor.{Field, Method, Descriptor, Checked, invalid}

abbrev pub Descriptors : Type 0
Descriptors = List (ℕ × Descriptor)

-- `names`: a map from type names to constant indices.
abbrev pub Names : Type 0
Names = List (Str × ℕ)

-- For each function, the constant index of the descriptor that owns it.
abbrev pub Owners : Type 0
Owners = List (Option ℕ)

abbrev pub is_some {ℓ} : {A : Type ℓ} → Option A → Bool
is_some (some _) = true
is_some none = false

unfoldable pub name_index : Names → Str → Option ℕ
unfolding str_eq
name_index [] key = none
name_index ((name, index) ∷ names) key =
    if str_eq name key then some index else name_index names key

unfoldable pub descriptor_at : Descriptors → ℕ → Option Descriptor
descriptor_at [] index = none
descriptor_at ((k, d) ∷ ds) index = if k == index then some d else descriptor_at ds index

-- The loop that fills `names`.
unfoldable pub names_loop : Names → Descriptors → Checked Names
unfolding name_index
names_loop names [] = ok names
names_loop names ((index, d) ∷ ds) =
    let rest = names_loop ((d.qualified_name, index) ∷ names) ds in
    if is_some (name_index names d.qualified_name)
    then err (invalid "duplicate object type identity")
    else rest

abbrev builtin_types : List Str
builtin_types =
    lit "number"
    ∷ lit "bool"
    ∷ lit "string"
    ∷ lit "null"
    ∷ lit "STATE"
    ∷ lit "STATE_DIST"
    ∷ lit "array"
    ∷ lit "map"
    ∷ lit "Tensor"
    ∷ lit "Shape"
    ∷ lit "Dynamic"
    ∷ lit "Self"
    ∷ []

-- `Information<…>` around a type
inner_type : Str → Option Str
unfolding strip_prefix strip_last
inner_type name = Option.bind (strip_prefix (lit "Information<") name) (strip_last b'>')

-- `fuel` is 33 - `depth`: the source gives up where `depth > 32`.
valid_type_fuel : ℕ → Str → Descriptor → Names → Bool
unfolding inner_type one_of name_index module_of
valid_type_fuel zero name owner names = false
valid_type_fuel (suc fuel) name owner names = elim (inner_type name) [
  | some inner ↦ valid_type_fuel fuel inner owner names
  | none ↦
      one_of name builtin_types
      || (is_some (name_index names name)
          || is_some (name_index names (module_of owner.qualified_name ++ (b'/' ∷ name))))
]

unfoldable pub valid_type : Str → Descriptor → Names → Bool
unfolding valid_type_fuel
valid_type = valid_type_fuel 33

all_valid : List Str → Descriptor → Names → Bool
unfolding valid_type
all_valid [] owner names = true
all_valid (name ∷ types) owner names = valid_type name owner names && all_valid types owner names

overload_type : Str → Bool
unfolding one_of strip_prefix
overload_type name =
    one_of name (lit "STATE" ∷ lit "STATE_DIST" ∷ [])
    || is_some (strip_prefix (lit "Information<") name)

-- The closure `own`: the function exists, has the arity, and had no owner.
unfoldable pub own : Chunk → ℕ → ℕ → ℕ → Owners → Checked Owners
own chunk function owner arity owners = do
  metadata ← ok_or (get_elem? chunk.functions function) (invalid "missing object member function")
  before ← or_panic (get_elem? owners function)
  require (metadata.arity == arity && not (is_some before))
      (invalid "object member has wrong arity or multiple owners")
  ok (set owners function (some owner))

unfoldable pub public_or_private : Str → Bool
unfolding one_of
public_or_private v = one_of v (lit "public" ∷ lit "private" ∷ [])

abbrev is_kind : Descriptor → Str → Bool
is_kind d k = str_eq d.kind k

module _ (chunk : Chunk) (names : Names) (index : ℕ) (d : Descriptor) where
  field_ok : List Str → Field → Bool
  unfolding identifier one_of public_or_private valid_type str_eq
  field_ok seen f =
      identifier f.name
      && (not (one_of f.name seen)
          && (public_or_private f.visibility
              && (valid_type f.field_type d names
                  && not (is_kind d (lit "value") && (f.mutable || is_some f.default_function)))))

  own_default : Option ℕ → Owners → Checked Owners
  unfolding own
  own_default none owners = ok owners
  own_default (some function) owners = own chunk function index 0 owners

  -- The loop over the fields, with the names seen so far.
  fields_loop : List Field → List Str → Owners → Checked (List Str × Owners)
  unfolding field_ok own_default
  fields_loop [] seen owners = ok (seen, owners)
  fields_loop (f ∷ fs) seen owners = do
    require (field_ok seen f) (invalid "invalid object field")
    owners' ← own_default f.default_function owners
    fields_loop fs (f.name ∷ seen) owners'

  result_ok : Method → Bool
  unfolding valid_type
  result_ok m = elim m.result_type [ none ↦ false | some name ↦ valid_type name d names ]

  init_ok : Bool → Method → Bool
  unfolding str_eq
  init_ok init m =
      is_kind d (lit "class") && (not m.is_static && (not (is_some m.result_type) && not init))

  method_ok : List Str → Bool → Method → Bool
  unfolding identifier one_of public_or_private all_valid init_ok result_ok str_eq
  method_ok seen init m =
      identifier m.name
      && (not (one_of m.name seen)
          && (public_or_private m.visibility
              && (leb m.effect_mask 63
                  && (all_valid m.parameter_types d names
                      && (same_bool m.is_init (str_eq m.name (lit "init"))
                          && (if m.is_init then init_ok init m else result_ok m))))))

  -- An interface only promises; any other method has a body of its own.
  own_method : Method → Owners → Checked Owners
  unfolding own str_eq
  own_method m owners =
      if is_kind d (lit "interface")
      then (do
        require
            (str_eq m.visibility (lit "public")
              && (not m.is_static && not (is_some m.function_index)))
            (invalid "invalid interface promise")
        ok owners)
      else (do
        function ← ok_or m.function_index (invalid "missing method body")
        own chunk function index (length m.parameter_types + (if m.is_static then 0 else 1)) owners)

same_strs : List Str → List Str → Bool
unfolding str_eq
same_strs [] [] = true
same_strs (s ∷ ss) (t ∷ ts) = str_eq s t && same_strs ss ts
same_strs _ _ = false

-- Some pair of types differs and is not a pair of overload types.
clash : List Str → List Str → Bool
unfolding str_eq overload_type
clash (s ∷ ss) (t ∷ ts) =
    not (str_eq s t) && not (overload_type s && overload_type t) || clash ss ts
clash _ _ = false

overload_ok : Method → Method → Bool
unfolding same_strs clash str_eq
overload_ok m prior =
    not (str_eq prior.name m.name)
    || not (
        m.is_static
        || (prior.is_static
            || (same_strs m.parameter_types prior.parameter_types
                || (not (length m.parameter_types == length prior.parameter_types)
                    || clash m.parameter_types prior.parameter_types))))

overloads_ok : Method → List Method → Bool
unfolding overload_ok
overloads_ok m [] = true
overloads_ok m (p ∷ ps) = overload_ok m p && overloads_ok m ps

-- The loop over the methods: the names of the fields, the flag `init`, the methods before.
unfoldable pub methods_loop :
    Chunk
    → Names
    → ℕ
    → Descriptor
    → List Str
    → Bool
    → List Method
    → List Method
    → Owners
    → Checked (Bool × Owners)
unfolding method_ok own_method overloads_ok
methods_loop chunk names index d seen init prior [] owners = ok (init, owners)
methods_loop chunk names index d seen init prior (m ∷ ms) owners = do
  require (method_ok chunk names index d seen init m) (invalid "invalid object method signature")
  owners' ← own_method chunk names index d m owners
  require (overloads_ok m prior) (invalid "invalid object overload")
  methods_loop chunk names index d seen (init || m.is_init) (prior ++ (m ∷ [])) ms owners'

some_unset : List Field → Bool
some_unset [] = false
some_unset (f ∷ fs) = not (is_some f.default_function) || some_unset fs

same_result : Option Str → Option Str → Bool
unfolding str_eq
same_result none none = true
same_result (some s) (some t) = str_eq s t
same_result _ _ = false

-- `find`: the first public method with the promised signature.
implementation : Method → List Method → Option Method
unfolding same_strs same_result str_eq
implementation promise [] = none
implementation promise (m ∷ ms) =
    if not m.is_static
      && (str_eq m.visibility (lit "public")
          && (str_eq m.name promise.name
              && (same_strs m.parameter_types promise.parameter_types
                  && same_result m.result_type promise.result_type)))
    then some m
    else implementation promise ms

promises_loop : List Method → List Method → Checked (Unit {0})
unfolding implementation
promises_loop methods [] = ok tt
promises_loop methods (p ∷ ps) = do
  m ← ok_or (implementation p methods) (invalid "missing interface implementation")
  require (bit_and m.effect_mask (2 ^ 32 - 1 - p.effect_mask) == 0)
      (invalid "interface effect promise exceeded")
  promises_loop methods ps

unfoldable pub implements_loop :
    Descriptors → Names → List Method → List Str → List Str → Checked (Unit {0})
unfolding promises_loop name_index descriptor_at one_of str_eq
implements_loop ds names methods seen [] = ok tt
implements_loop ds names methods seen (name ∷ more) = do
  interface ←
      ok_or (Option.bind (name_index names name) (descriptor_at ds))
        (invalid "missing implemented interface")
  require (not (one_of name seen) && is_kind interface (lit "interface"))
      (invalid "invalid implemented interface")
  promises_loop methods interface.methods
  implements_loop ds names methods (name ∷ seen) more

is_empty {ℓ} : {A : Type ℓ} → List A → Bool
is_empty [] = true
is_empty (_ ∷ _) = false

-- The body of the loop over the descriptors.
unfoldable pub check_descriptor :
    Chunk → Descriptors → Names → ℕ → Descriptor → Owners → Checked Owners
unfolding fields_loop methods_loop some_unset implements_loop is_empty str_eq
check_descriptor chunk ds names index d owners = do
  require (not (is_kind d (lit "interface") && not (is_empty d.fields && is_empty d.implements)))
      (invalid "interface has fields or inheritance")
  (seen, owners₁) ← fields_loop chunk names index d d.fields [] owners
  (init, owners₂) ← methods_loop chunk names index d seen false [] d.methods owners₁
  require (not (is_kind d (lit "class") && (not init && some_unset d.fields)))
      (invalid "class without init has an unset field")
  implements_loop ds names d.methods [] d.implements
  ok owners₂

-- The loop over `rest` of the descriptors `ds`.
unfoldable pub descriptors_loop :
    Chunk → Descriptors → Names → Descriptors → Owners → Checked Owners
unfolding check_descriptor
descriptors_loop chunk ds names [] owners = ok owners
descriptors_loop chunk ds names ((index, d) ∷ rest) owners = do
  owners' ← check_descriptor chunk ds names index d owners
  descriptors_loop chunk ds names rest owners'

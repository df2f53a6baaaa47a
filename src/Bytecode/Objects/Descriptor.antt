-- ===== src/Bytecode/Objects/Descriptor.antt =====
-- The descriptors of vm/rust/lana-bytecode/src/objects.rs: their data, `Descriptor::parse` and
-- `descriptors`. JSON is the business of the crate serde_json: `Serde` holds the calls made of it.
use lana.Prelude.{
  ℕ, suc, Bool, true, false, ◌&&◌, ◌==◌, Option, some, none, List, [], ◌∷◌, Result, ok, ◌>>=◌, ◌>>◌,
  require, ok_or,
}
use Prim.Native.String.{String}
use lana.Bytecode.Error.{LanaError, LanaErrorInfo, Message}
use lana.Bytecode.Chunk.{Value, Chunk}
use lana.Bytecode.Objects.Text.{Str, lit, str_eq, one_of, qualified}
use mathlib.Core.Option

pub record Field : Type 0 where
  pub name : Str
  pub field_type : Str
  pub visibility : Str
  pub mutable : Bool
  pub default_function : Option ℕ

pub record Method : Type 0 where
  pub name : Str
  pub visibility : Str
  pub is_static : Bool
  pub parameter_types : List Str
  pub result_type : Option Str
  pub effect_mask : ℕ
  pub function_index : Option ℕ
  pub is_init : Bool

pub record Descriptor : Type 0 where
  pub schema_version : ℕ
  pub kind : Str
  pub qualified_name : Str
  pub fields : List Field
  pub methods : List Method
  pub implements : List Str

-- serde_json: `from_str`, `to_string`, the accessors of `Value`, and the derived `from_value`.
pub record Serde : Type 1 where
  pub Json : Type 0
  pub from_str : Str → Option Json
  pub to_string : Json → Option Str
  pub get : Str → Json → Option Json
  pub as_str : Json → Option Str
  pub as_array : Json → Option (List Json)
  pub object_len : Json → Option ℕ
  pub from_value : Json → Option Descriptor

abbrev pub Checked {ℓ} : Type ℓ → Type ℓ
Checked A = Result LanaErrorInfo A

abbrev pub invalid : String → LanaErrorInfo
invalid message = record {
  code = LanaError.format;
  ip = 0;
  opcode = 0;
  line = 0;
  message = Message.text message;
}

abbrev pub kinds : List Str
kinds = lit "value" ∷ lit "class" ∷ lit "interface" ∷ []

module _ (sd : Serde) where
  open sd use {Json, from_str, to_string, get, as_str, as_array, object_len, from_value}

  -- `as_object().is_some_and(|v| v.len() == n)`
  has_len : ℕ → Json → Bool
  has_len n json = elim (object_len json) [ none ↦ false | some k ↦ k == n ]

  all_have_len : ℕ → List Json → Bool
  unfolding has_len
  all_have_len n [] = true
  all_have_len n (j ∷ js) = has_len n j && all_have_len n js

  -- `get(key)` is an array of objects with `n` keys each.
  array_of : Str → ℕ → Json → Bool
  unfolding all_have_len
  array_of key n json = elim (Option.bind (get key json) as_array) [
    | none ↦ false
    | some js ↦ all_have_len n js
  ]

  unfoldable pub parse : Str → Checked Descriptor
  unfolding array_of has_len str_eq one_of
  parse text = do
    json ← ok_or (from_str text) (invalid "invalid object descriptor JSON")
    again ← ok_or (to_string json) (invalid "invalid descriptor")
    require (str_eq again text) (invalid "object descriptor is not canonical JSON")
    require (has_len 6 json && (array_of (lit "fields") 5 json && array_of (lit "methods") 8 json))
        (invalid "missing object descriptor fields")
    descriptor ← ok_or (from_value json) (invalid "invalid object descriptor schema")
    require
        (descriptor.schema_version == 1
          && (one_of descriptor.kind kinds && qualified descriptor.qualified_name))
        (invalid "invalid object descriptor identity")
    ok descriptor

  has_key : Str → Json → Bool
  has_key key json = elim (get key json) [ none ↦ false | some _ ↦ true ]

  -- The constant is JSON that declares itself a descriptor.
  unfoldable pub declares : Str → Bool
  unfolding has_key one_of
  declares text = elim (from_str text) [
    | none ↦ false
    | some json ↦
        has_key (lit "schema_version") json
        && (has_key (lit "qualified_name") json
            && elim (Option.bind (get (lit "kind") json) as_str) [
              | none ↦ false
              | some kind ↦ one_of kind kinds
            ])
  ]

  -- The loop of `descriptors` from constant `index` on. The map is a list in the order of its
  -- keys. There are fewer than 2^32 constants, so `index as u32` does not wrap.
  unfoldable pub descriptors_from : ℕ → List Value → Checked (List (ℕ × Descriptor))
  descriptors_from index [] = ok []
  descriptors_from index (Value.string text ∷ constants) =
      let rest = descriptors_from (suc index) constants in
      elim (declares text) [
        | false ↦ rest
        | true ↦ do descriptor ← parse text; more ← rest; ok ((index, descriptor) ∷ more)
      ]
  descriptors_from index (_ ∷ constants) = descriptors_from (suc index) constants

  unfoldable pub descriptors : Chunk → Checked (List (ℕ × Descriptor))
  unfolding descriptors_from
  descriptors chunk = descriptors_from 0 chunk.constants

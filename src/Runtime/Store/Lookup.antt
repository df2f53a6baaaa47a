-- ===== src/Runtime/Store/Lookup.antt =====
-- Proofs on the index and on `store_get_at` of runtime/rust/lana-runtime/src/store.rs.
use lana.Prelude.{
  ℕ, true, false, ltb, ◌==◌, if◌then◌else◌, Option, none, some, List, [], ◌∷◌, ◌≡◌, refl, ap, sym,
  subst, ◌∙◌, arith, Bool-cases, inl, inr,
}
use lana.Bytecode.Objects.Text.{Str, str_eq}
use lana.Runtime.Payload.{Mutation}
use lana.Runtime.Payload.Parsing.{str_eq_self}
use lana.Runtime.Store.{
  Revision, Index, str_lt, insert_key, remove_key, get_key, apply_one, apply_all, apply_revisions,
  latest_in, latest_upto, left_by,
}

str_eq_sound : (xs ys : Str) → str_eq xs ys ≡ true → xs ≡ ys
unfolding str_eq
str_eq_sound [] [] h = refl
str_eq_sound [] (y ∷ ys) h = cc
str_eq_sound (x ∷ xs) [] h = cc
str_eq_sound (x ∷ xs) (y ∷ ys) h =
    let same : x ≡ y = ground arith in
    let rest : str_eq xs ys ≡ true = ground arith in λ i. same i ∷ str_eq_sound xs ys rest i

pub get_key-insert_key :
    (key : Str) (value : List ℕ) (index : Index)
    → get_key key (insert_key key value index) ≡ some value
unfolding get_key insert_key
get_key-insert_key key value [] = rw (str_eq_self key)
get_key-insert_key key value ((k, v) ∷ rest) = elim (Bool-cases (str_eq key k)) [
  | inl same ↦ rw (same, str_eq_self key)
  | inr other ↦ elim (Bool-cases (str_lt key k)) [
    | inl before ↦ rw (other, before, str_eq_self key)
    | inr after ↦ rw (other, after, other) (get_key-insert_key key value rest)
  ]
]

get_key-remove_key : (key : Str) (index : Index) → get_key key (remove_key key index) ≡ none
unfolding get_key remove_key
get_key-remove_key key [] = refl
get_key-remove_key key ((k, v) ∷ rest) = elim (Bool-cases (str_eq key k)) [
  | inl same ↦ rw same (get_key-remove_key key rest)
  | inr other ↦ rw (other, other) (get_key-remove_key key rest)
]

str_eq-flip : (xs ys : Str) → str_eq xs ys ≡ false → str_eq ys xs ≡ false
unfolding str_eq
str_eq-flip [] [] h = h
str_eq-flip [] (y ∷ ys) h = refl
str_eq-flip (x ∷ xs) [] h = refl
str_eq-flip (x ∷ xs) (y ∷ ys) h = elim (Bool-cases (x == y)) [
  | inl same ↦ let rest = str_eq-flip xs ys (ground (arith, h, same)) in ground (arith, rest)
  | inr other ↦ ground (arith, other)
]

-- Another key is left alone.
get_other-insert_key :
    (a key : Str) (value : List ℕ) (index : Index)
    → str_eq key a ≡ false
    → get_key a (insert_key key value index) ≡ get_key a index
unfolding get_key insert_key
get_other-insert_key a key value [] ne = rw (str_eq-flip key a ne)
get_other-insert_key a key value ((k, v) ∷ rest) ne =
    let ne' = str_eq-flip key a ne in
    elim (Bool-cases (str_eq key k)) [
      | inl same ↦
          let skip : str_eq a k ≡ false =
            subst (λ x. str_eq a x ≡ false) (str_eq_sound key k same) ne' in
          rw (same, ne', skip)
      | inr other ↦ elim (Bool-cases (str_lt key k)) [
        | inl before ↦ rw (other, before, ne')
        | inr after ↦ elim (Bool-cases (str_eq a k)) [
          | inl here ↦ rw (other, after, here)
          | inr there ↦ rw (other, after, there) (get_other-insert_key a key value rest ne)
        ]
      ]
    ]

get_other-remove_key :
    (a key : Str) (index : Index)
    → str_eq key a ≡ false
    → get_key a (remove_key key index) ≡ get_key a index
unfolding get_key remove_key
get_other-remove_key a key [] ne = refl
get_other-remove_key a key ((k, v) ∷ rest) ne =
    let ne' = str_eq-flip key a ne in
    elim (Bool-cases (str_eq key k)) [
      | inl same ↦
          let skip : str_eq a k ≡ false =
            subst (λ x. str_eq a x ≡ false) (str_eq_sound key k same) ne' in
          rw (same, skip) (get_other-remove_key a key rest ne)
      | inr other ↦ elim (Bool-cases (str_eq a k)) [
        | inl here ↦ rw (other, here)
        | inr there ↦ rw (other, there) (get_other-remove_key a key rest ne)
      ]
    ]

-- What a mutation does to the reading of a key.
get_key-apply_one :
    (a : Str) (m : Mutation) (index : Index)
    → get_key a (apply_one m index) ≡ (if str_eq m.key a then left_by (some m) else get_key a index)
unfolding apply_one
get_key-apply_one a m index = elim (Bool-cases (str_eq m.key a)) [
  | inl same ↦
      let e = str_eq_sound m.key a same in
      elim (Bool-cases m.deleted) [
        | inl gone ↦
            rw (gone, same)
              (ap (λ k. get_key a (remove_key k index)) e ∙ get_key-remove_key a index)
        | inr put ↦
            rw (put, same)
              (ap (λ k. get_key a (insert_key k m.value index)) e
                ∙ get_key-insert_key a m.value index)
      ]
  | inr other ↦ elim (Bool-cases m.deleted) [
    | inl gone ↦ rw (gone, other) (get_other-remove_key a m.key index other)
    | inr put ↦ rw (put, other) (get_other-insert_key a m.key m.value index other)
  ]
]

-- The last mutation of a key among those applied leaves what the index has under it.
latest_in-apply_all :
    (a : Str) (ms : List Mutation) (latest : Option Mutation) (index : Index)
    → left_by latest ≡ get_key a index
    → left_by (latest_in a ms latest) ≡ get_key a (apply_all ms index)
unfolding latest_in apply_all
latest_in-apply_all a [] latest index h = h
latest_in-apply_all a (m ∷ ms) latest index h =
    let one = get_key-apply_one a m index in
    elim (Bool-cases (str_eq m.key a)) [
      | inl same ↦
          rw same (latest_in-apply_all a ms (some m) (apply_one m index) (sym (rw same at one)))
      | inr other ↦
          rw other (latest_in-apply_all a ms latest (apply_one m index) (h ∙ sym (rw other at one)))
    ]

-- The revisions up to a number.
abbrev pub upto : ℕ → List Revision → List Revision
upto revision [] = []
upto revision (r ∷ rs) = if ltb revision r.id then [] else r ∷ upto revision rs

pub latest_upto-apply :
    (revision : ℕ) (a : Str) (revs : List Revision) (latest : Option Mutation) (index : Index)
    → left_by latest ≡ get_key a index
    → left_by (latest_upto revision a revs latest)
      ≡ get_key a (apply_revisions (upto revision revs) index)
unfolding latest_upto
latest_upto-apply revision a [] latest index h = h
latest_upto-apply revision a (r ∷ rs) latest index h = elim (Bool-cases (ltb revision r.id)) [
  | inl past ↦ rw past h
  | inr within ↦ rw within (
      latest_upto-apply revision a rs (latest_in a r.mutations latest) (apply_all r.mutations index)
        (latest_in-apply_all a r.mutations latest index h))
]

-- ===== src/Vm/Frames/Scan.antt =====
-- What the scan of a region in `compute_max_registers` of vm/rust/lana-vm/src/vm.rs says of each
-- of its instructions.
use lana.Prelude.{
  ℕ, zero, suc, ◌+◌, ◌-◌, ◌<◌, ◌≤◌, false, List, [], ◌∷◌, length, get_elem?, take, drop, some, max,
  ◌≡◌, refl, ok, arith, subst, ap, ◌∙◌, le→leb, length-drop,
}
use mathlib.Core.Option.{some-injective}
use lana.Bytecode.Chunk.{Instruction}
use lana.Bytecode.Objects.Access.{ends_body}
use lana.Vm.Registers.{instruction_max_register}
use lana.Vm.Frames.{slice, falls_through, leaves, some_leaves, code_max}

module _ {ℓ} {A : Type ℓ} where
  get_elem?-drop : (n j : ℕ) (xs : List A) → get_elem? (drop n xs) j ≡ get_elem? xs (n + j)
  get_elem?-drop zero j xs = ap (get_elem? xs) (omega arith)
  get_elem?-drop (suc n) j [] = refl
  get_elem?-drop (suc n) j (x ∷ xs) =
      get_elem?-drop n j xs
      ∙ ap (get_elem? (x ∷ xs)) {x = suc (n + j)} {y = suc n + j} (omega arith)

  get_elem?-take : (n j : ℕ) (xs : List A) → j < n → get_elem? (take n xs) j ≡ get_elem? xs j
  get_elem?-take zero j xs h = absurd (omega arith)
  get_elem?-take (suc n) j [] h = refl
  get_elem?-take (suc n) zero (x ∷ xs) h = refl
  get_elem?-take (suc n) (suc j) (x ∷ xs) h = get_elem?-take n j xs (omega arith)

  length-take : (n : ℕ) (xs : List A) → n ≤ length xs → length (take n xs) ≡ n
  length-take zero xs h = refl
  length-take (suc n) [] h = absurd (omega arith)
  length-take (suc n) (x ∷ xs) h = ap suc (length-take n xs (omega arith))

abbrev pub region : List Instruction → ℕ → ℕ → List Instruction
region code start end = take (end - start) (drop start code)

pub slice-region :
    (code : List Instruction) (start end : ℕ)
    → start ≤ end
    → end ≤ length code
    → slice code start end ≡ ok (region code start end)
unfolding slice
slice-region code start end lo hi = rw (le→leb start end lo, le→leb end (length code) hi)

pub get_elem?-region :
    (code : List Instruction) (start end j : ℕ)
    → start + j < end
    → get_elem? (region code start end) j ≡ get_elem? code (start + j)
get_elem?-region code start end j h =
    get_elem?-take (end - start) j (drop start code) (omega arith) ∙ get_elem?-drop start j code

pub length-region :
    (code : List Instruction) (start end : ℕ)
    → end ≤ length code
    → length (region code start end) ≡ end - start
length-region code start end h =
    length-take (end - start) (drop start code) (omega (arith, length-drop start code))

-- The last instruction of a region that is not fallen through ends a body.
pub falls_through-last :
    (code : List Instruction) (j : ℕ) (i : Instruction)
    → falls_through code ≡ false
    → get_elem? code j ≡ some i
    → ends_body i.opcode ≡ false
    → suc j < length code
unfolding falls_through
falls_through-last [] j i h e goes = cc
falls_through-last (x ∷ []) zero i h e goes = let same = some-injective _ _ e in ground arith
falls_through-last (x ∷ []) (suc j) i h e goes = cc
falls_through-last (x ∷ y ∷ code) zero i h e goes = omega arith
falls_through-last (x ∷ y ∷ code) (suc j) i h e goes =
    omega (arith, falls_through-last (y ∷ code) j i h e goes)

pub falls_through-length : (code : List Instruction) → falls_through code ≡ false → 0 < length code
unfolding falls_through
falls_through-length [] h = cc
falls_through-length (x ∷ code) h = omega arith

pub some_leaves-none :
    (start end : ℕ) (code : List Instruction) (j : ℕ) (i : Instruction)
    → some_leaves start end code ≡ false
    → get_elem? code j ≡ some i
    → leaves start end i ≡ false
unfolding some_leaves
some_leaves-none start end [] j i h e = cc
some_leaves-none start end (x ∷ code) zero i h e =
    let same = some-injective _ _ e in
    let first : leaves start end x ≡ false = ground arith in
    subst (λ y. leaves start end y ≡ false) same first
some_leaves-none start end (x ∷ code) (suc j) i h e =
    some_leaves-none start end code j i (ground arith) e

code_max-le : (m : ℕ) (code : List Instruction) → m ≤ code_max m code
unfolding code_max
code_max-le m [] = omega arith
code_max-le m (i ∷ code) = omega (arith, code_max-le (max m (instruction_max_register i)) code)

pub code_max-lem :
    (m : ℕ) (code : List Instruction) (j : ℕ) (i : Instruction)
    → get_elem? code j ≡ some i
    → instruction_max_register i ≤ code_max m code
unfolding code_max
code_max-lem m [] j i e = cc
code_max-lem m (x ∷ code) zero i e =
    let same = some-injective _ _ e in
    subst (λ y. instruction_max_register y ≤ code_max m (x ∷ code)) same
      (omega (arith, code_max-le (max m (instruction_max_register x)) code))
code_max-lem m (x ∷ code) (suc j) i e = code_max-lem (max m (instruction_max_register x)) code j i e

-- ===== src/Runtime/Journal/Pieces.antt =====
-- Byte strings made of pieces, and where the pieces stand.
use lana.Prelude.{
  ℕ, zero, suc, ◌+◌, List, [], ◌∷◌, ◌++◌, length, take, drop, get_elem?, take_append, length-append,
  some, ◌≡◌, refl, ap, subst, ◌∙◌, arith,
}
use mathlib.Core.Option.{some-injective}
use lana.Runtime.Words.{slice}

-- The pieces one after the other.
abbrev pub join : List (List ℕ) → List ℕ
join [] = []
join (p ∷ []) = p
join (p ∷ q ∷ ps) = p ++ join (q ∷ ps)

abbrev pub offset : List (List ℕ) → ℕ → ℕ
offset [] i = 0
offset (p ∷ ps) zero = 0
offset (p ∷ ps) (suc i) = length p + offset ps i

take-all : (xs : List ℕ) → take (length xs) xs ≡ xs
take-all [] = refl
take-all (x ∷ xs) = ap (λ l. x ∷ l) (take-all xs)

drop-skip : (xs ys : List ℕ) (j : ℕ) → drop (length xs + j) (xs ++ ys) ≡ drop j ys
drop-skip [] ys j = let same : 0 + j ≡ j = omega arith in rw same
drop-skip (x ∷ xs) ys j =
    let same : suc (length xs) + j ≡ suc (length xs + j) = omega arith in
    rw same (drop-skip xs ys j)

slice-first : (p : List ℕ) (ps : List (List ℕ)) → slice 0 (length p) (join (p ∷ ps)) ≡ p
slice-first p [] = take-all p
slice-first p (q ∷ ps) = take_append p (join (q ∷ ps))

-- A piece is found at its offset.
slice-offset :
    (ps : List (List ℕ)) (i : ℕ) (p : List ℕ)
    → get_elem? ps i ≡ some p
    → slice (offset ps i) (length p) (join ps) ≡ p
slice-offset [] i p h = cc
slice-offset (q ∷ ps) zero p h =
    let same : q ≡ p = some-injective _ _ h in
    subst (λ x. slice 0 (length x) (join (q ∷ ps)) ≡ x) same (slice-first q ps)
slice-offset (q ∷ []) (suc i) p h = cc
slice-offset (q ∷ r ∷ ps) (suc i) p h =
    ap (take (length p)) (drop-skip q (join (r ∷ ps)) (offset (r ∷ ps) i))
    ∙ slice-offset (r ∷ ps) i p h

pub slice-piece :
    (ps : List (List ℕ)) (i : ℕ) (p : List ℕ) (j k : ℕ)
    → get_elem? ps i ≡ some p
    → j ≡ offset ps i
    → k ≡ length p
    → slice j k (join ps) ≡ p
slice-piece ps i p j k h e f = rw (e, f) (slice-offset ps i p h)

pub length-join : (ps : List (List ℕ)) → length (join ps) ≡ offset ps (length ps)
length-join [] = refl
length-join (p ∷ []) = omega arith
length-join (p ∷ q ∷ ps) = omega (arith, length-append p (join (q ∷ ps)), length-join (q ∷ ps))

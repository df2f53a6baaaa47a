-- ===== src/Runtime/Words.antt =====
-- Big-endian numbers, `to_be_bytes` and `from_be_bytes` of the standard library, and pieces of byte
-- strings.
use lana.Prelude.{
  ℕ, zero, suc, ◌+◌, ◌^◌, ◌<◌, ◌≤◌, List, [], ◌∷◌, ◌++◌, length, take, drop, length-append, ◌≡◌,
  refl, ap, ◌∙◌, arith,
}
use lana.Bytecode.Bytes.{le_bytes, le_value, length-le_bytes, le_value-le_bytes}

abbrev snoc : List ℕ → ℕ → List ℕ
snoc xs x = xs ++ (x ∷ [])

unfoldable pub turned : List ℕ → List ℕ
turned [] = []
turned (x ∷ xs) = snoc (turned xs) x

turned-snoc : (xs : List ℕ) (x : ℕ) → turned (snoc xs x) ≡ x ∷ turned xs
unfolding turned
turned-snoc [] x = refl
turned-snoc (y ∷ xs) x = ap (λ l. snoc l y) (turned-snoc xs x)

turned-turned : (xs : List ℕ) → turned (turned xs) ≡ xs
unfolding turned
turned-turned [] = refl
turned-turned (x ∷ xs) = turned-snoc (turned xs) x ∙ ap (λ l. x ∷ l) (turned-turned xs)

length-turned : (xs : List ℕ) → length (turned xs) ≡ length xs
unfolding turned
length-turned [] = refl
length-turned (x ∷ xs) = omega (arith, length-append (turned xs) (x ∷ []), length-turned xs)

unfoldable pub be_bytes : ℕ → ℕ → List ℕ
unfolding turned le_bytes
be_bytes k n = turned (le_bytes k n)

unfoldable pub be_value : List ℕ → ℕ
unfolding turned le_value
be_value bs = le_value (turned bs)

pub length-be_bytes : (k n : ℕ) → length (be_bytes k n) ≡ k
unfolding be_bytes
length-be_bytes k n = length-turned (le_bytes k n) ∙ length-le_bytes k n

-- A number that fits in `k` bytes is read back from them.
pub be_value-be_bytes : (k n : ℕ) → n < 256 ^ k → be_value (be_bytes k n) ≡ n
unfolding be_bytes be_value
be_value-be_bytes k n h = ap le_value (turned-turned (le_bytes k n)) ∙ le_value-le_bytes k n h

-- `xs[j..j + k]`
abbrev pub slice : ℕ → ℕ → List ℕ → List ℕ
slice j k xs = take k (drop j xs)

pub length-take : (n : ℕ) (xs : List ℕ) → n ≤ length xs → length (take n xs) ≡ n
length-take zero xs h = refl
length-take (suc n) [] h = absurd (omega arith)
length-take (suc n) (x ∷ xs) h = ap suc (length-take n xs (omega arith))

pub take-drop : (n : ℕ) (xs : List ℕ) → take n xs ++ drop n xs ≡ xs
take-drop zero xs = refl
take-drop (suc n) [] = refl
take-drop (suc n) (x ∷ xs) = ap (λ l. x ∷ l) (take-drop n xs)

take-take : (k n : ℕ) (xs : List ℕ) → k ≤ n → take k (take n xs) ≡ take k xs
take-take zero n xs h = refl
take-take (suc k) zero xs h = absurd (omega arith)
take-take (suc k) (suc n) [] h = refl
take-take (suc k) (suc n) (x ∷ xs) h = ap (λ l. x ∷ l) (take-take k n xs (omega arith))

-- A piece of a prefix is the piece of the whole.
pub slice-take : (j k n : ℕ) (xs : List ℕ) → j + k ≤ n → slice j k (take n xs) ≡ slice j k xs
slice-take zero k n xs h = take-take k n xs (omega arith)
slice-take (suc j) k zero xs h = absurd (omega arith)
slice-take (suc j) k (suc n) [] h = refl
slice-take (suc j) k (suc n) (x ∷ xs) h = slice-take j k n xs (omega arith)

pub slice-prefix :
    (j k : ℕ) (xs ys : List ℕ) → j + k ≤ length xs → slice j k (xs ++ ys) ≡ slice j k xs
slice-prefix zero zero xs ys h = refl
slice-prefix zero (suc k) [] ys h = absurd (omega arith)
slice-prefix zero (suc k) (x ∷ xs) ys h = ap (λ l. x ∷ l) (slice-prefix zero k xs ys (omega arith))
slice-prefix (suc j) k [] ys h = absurd (omega arith)
slice-prefix (suc j) k (x ∷ xs) ys h = slice-prefix j k xs ys (omega arith)

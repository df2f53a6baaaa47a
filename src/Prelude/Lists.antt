-- ===== src/Prelude/Lists.antt =====
-- Lists measured and indexed by native numbers, under the library's names.
use Prim.Native.Nat.{ℕ, zero, suc, ◌+◌, ◌-◌, ◌<◌}
use Prim.Native.Nat.add
use mathlib.Core.Path.{◌≡◌, refl, ap, subst}
use mathlib.Core.List.{List, [], ◌∷◌, ◌++◌}
use mathlib.Core.Logic.{◌≢◌}
use mathlib.Core.Option.{Option, none, some, some-injective}
use native.Mathlib.Omega.{arith}

module _ {ℓ} {A : Type ℓ} where
  abbrev pub length : List A → ℕ
  length [] = 0
  length (x ∷ xs) = suc (length xs)

  abbrev pub get_elem? : List A → ℕ → Option A
  get_elem? [] i = none
  get_elem? (x ∷ xs) zero = some x
  get_elem? (x ∷ xs) (suc i) = get_elem? xs i

  abbrev pub take : ℕ → List A → List A
  take zero xs = []
  take (suc n) [] = []
  take (suc n) (x ∷ xs) = x ∷ take n xs

  abbrev pub drop : ℕ → List A → List A
  drop zero xs = xs
  drop (suc n) [] = []
  drop (suc n) (x ∷ xs) = drop n xs

  -- A write out of bounds changes nothing.
  abbrev pub set : List A → ℕ → A → List A
  set [] i v = []
  set (x ∷ xs) zero v = v ∷ xs
  set (x ∷ xs) (suc i) v = x ∷ set xs i v

  abbrev pub replicate : ℕ → A → List A
  replicate zero a = []
  replicate (suc n) a = a ∷ replicate n a

  -- A predicate of every element.
  abbrev pub All {κ} : (A → Type κ) → List A → Type κ
  All P [] = Unit
  All P (x ∷ xs) = P x × All P xs

  pub length-append : (xs ys : List A) → length (xs ++ ys) ≡ length xs + length ys
  length-append [] ys = omega arith
  length-append (x ∷ xs) ys = omega (arith, length-append xs ys)

  pub take_append : (xs ys : List A) → take (length xs) (xs ++ ys) ≡ xs
  take_append [] ys = refl
  take_append (x ∷ xs) ys = ap (◌∷◌ x) (take_append xs ys)

  pub drop_append : (xs ys : List A) → drop (length xs) (xs ++ ys) ≡ ys
  drop_append [] ys = refl
  drop_append (x ∷ xs) ys = drop_append xs ys

  drop-nil : (n : ℕ) → drop n [] ≡ []
  drop-nil zero = refl
  drop-nil (suc n) = refl

  pub drop-drop : (m n : ℕ) (xs : List A) → drop n (drop m xs) ≡ drop (m + n) xs
  drop-drop zero n xs = rw add.zero
  drop-drop (suc m) n [] = rw (drop-nil n, drop-nil (suc m + n))
  drop-drop (suc m) n (x ∷ xs) = rw add.suc (drop-drop m n xs)

  pub length-drop : (n : ℕ) (xs : List A) → length (drop n xs) ≡ length xs - n
  length-drop zero xs = omega arith
  length-drop (suc n) [] = omega arith
  length-drop (suc n) (x ∷ xs) = omega (arith, length-drop n xs)

  -- An index below the length has an element.
  pub get_elem?-some : (xs : List A) (i : ℕ) → i < length xs → (x : A) × (get_elem? xs i ≡ some x)
  get_elem?-some [] i h = elim h [ ]
  get_elem?-some (x ∷ xs) zero h = (x, refl)
  get_elem?-some (x ∷ xs) (suc i) h = get_elem?-some xs i (omega arith)

  pub get_elem?-lt : (xs : List A) (k : ℕ) {x : A} → get_elem? xs k ≡ some x → k < length xs
  get_elem?-lt [] k e = cc
  get_elem?-lt (x ∷ xs) zero e = omega arith
  get_elem?-lt (x ∷ xs) (suc k) e = omega (arith, get_elem?-lt xs k e)

  pub length-set : (xs : List A) (k : ℕ) (x : A) → length (set xs k x) ≡ length xs
  length-set [] k x = refl
  length-set (y ∷ xs) zero x = refl
  length-set (y ∷ xs) (suc k) x = ap suc (length-set xs k x)

  pub get_elem?-set :
      (xs : List A) (k : ℕ) (x : A) → k < length xs → get_elem? (set xs k x) k ≡ some x
  get_elem?-set [] k x h = elim h [ ]
  get_elem?-set (y ∷ xs) zero x h = refl
  get_elem?-set (y ∷ xs) (suc k) x h = get_elem?-set xs k x (omega arith)

  pub get_elem?-set_ne :
      (xs : List A) (k j : ℕ) (x : A) → j ≢ k → get_elem? (set xs k x) j ≡ get_elem? xs j
  get_elem?-set_ne [] k j x ne = refl
  get_elem?-set_ne (y ∷ xs) zero zero x ne = absurd (ne refl)
  get_elem?-set_ne (y ∷ xs) zero (suc j) x ne = refl
  get_elem?-set_ne (y ∷ xs) (suc k) zero x ne = refl
  get_elem?-set_ne (y ∷ xs) (suc k) (suc j) x ne = get_elem?-set_ne xs k j x (λ e. ne (ap suc e))

  pub length-replicate : (n : ℕ) (x : A) → length (replicate n x) ≡ n
  length-replicate zero x = refl
  length-replicate (suc n) x = ap suc (length-replicate n x)

  pub All-append {κ} : (P : A → Type κ) (xs ys : List A) → All P xs → All P ys → All P (xs ++ ys)
  All-append P [] ys ps qs = qs
  All-append P (x ∷ xs) ys (p, ps) qs = (p, All-append P xs ys ps qs)

  pub All-get {κ} :
      (P : A → Type κ) (xs : List A) (i : ℕ) {x : A} → All P xs → get_elem? xs i ≡ some x → P x
  All-get P [] i h e = cc
  All-get P (y ∷ xs) zero h e = subst P (some-injective _ _ e) h.0
  All-get P (y ∷ xs) (suc i) h e = All-get P xs i h.1 e

module _ {ℓ κ} {A : Type ℓ} where
  pub All-map : (P Q : A → Type κ) → ((x : A) → P x → Q x) → (xs : List A) → All P xs → All Q xs
  All-map P Q f [] h = tt
  All-map P Q f (x ∷ xs) h = (f x h.0, All-map P Q f xs h.1)

  pub All-map₂ :
      (P Q R : A → Type κ)
      → ((x : A) → P x → Q x → R x)
      → (xs : List A) → All P xs
      → All Q xs
      → All R xs
  All-map₂ P Q R f [] h k = tt
  All-map₂ P Q R f (x ∷ xs) h k = (f x h.0 k.0, All-map₂ P Q R f xs h.1 k.1)

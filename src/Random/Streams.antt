-- ===== src/Random/Streams.antt =====
-- Proofs on the states of vm/rust/lana-vm/src/rng.rs.
use lana.Prelude.{ℕ, zero, suc, ◌+◌, ◌*◌, ◌/◌, ◌%◌, ◌^◌, ◌<◌, ◌≡◌, ◌≢◌, refl, ap, sym, ◌∙◌, arith}
use native.Mathlib.Nat.{
  mod-eq_of_lt, mod-add-div, add-mul-mod_self_left, add-mul, mul_assoc, mul_left_comm, mul-add,
  mul-one,
}
use lana.Random.{Rng, multiplier, default_increment, next_state, random, seed}

abbrev word : ℕ
word = 2 ^ 64

-- The inverse of the multiplier, and how often their product passes a word.
abbrev inverse : ℕ
inverse = 13877824140714322085

abbrev passes : ℕ
passes = 4787856489426250814

inverse_product : multiplier * inverse ≡ 1 + word * passes
inverse_product = refl

unmultiply : (x : ℕ) → x < word → x * multiplier % word * inverse % word ≡ x
unmultiply x small =
    let r = x * multiplier % word in
    let q = x * multiplier / word in
    let product : r * inverse + word * (q * inverse) ≡ x + word * (x * passes) =
      ap (λ n. r * inverse + n) (sym (mul_assoc word q inverse))
      ∙ sym (add-mul r (word * q) inverse)
      ∙ ap (λ n. n * inverse) (mod-add-div (x * multiplier) word)
      ∙ mul_assoc x multiplier inverse
      ∙ ap (λ n. x * n) inverse_product
      ∙ mul-add x 1 (word * passes)
      ∙ (λ i. mul-one x i + mul_left_comm x word passes i) in
    sym (add-mul-mod_self_left (r * inverse) word (q * inverse))
    ∙ ap (λ n. n % word) product
    ∙ add-mul-mod_self_left x word (x * passes)
    ∙ mod-eq_of_lt small

next_state-small : (a increment : ℕ) → next_state a increment < word
unfolding next_state
next_state-small a increment = omega arith

next_state-injective :
    (a b increment : ℕ)
    → a < word
    → b < word
    → next_state a increment ≡ next_state b increment
    → a ≡ b
unfolding next_state
next_state-injective a b increment a_small b_small h =
    let x = a * multiplier % word in
    let y = b * multiplier % word in
    let same : x ≡ y = omega (arith, h) in
    sym (unmultiply a a_small) ∙ ap (λ n. n * inverse % word) same ∙ unmultiply b b_small

-- The generator after some draws.
abbrev pub draws : ℕ → Rng → Rng
draws zero r = r
draws (suc n) r = draws n (random r).0

draws-injective :
    (n a b increment : ℕ)
    → a < word
    → b < word
    → (draws n (record { state = a; increment = increment })).state
      ≡ (draws n (record { state = b; increment = increment })).state
    → a ≡ b
unfolding random
draws-injective zero a b increment a_small b_small h = h
draws-injective (suc n) a b increment a_small b_small h =
    next_state-injective a b increment a_small b_small (
      draws-injective n (next_state a increment) (next_state b increment) increment
        (next_state-small a increment) (next_state-small b increment) h)

seed-injective :
    (n a b : ℕ) (r s : Rng)
    → a < word
    → b < word
    → (draws n (seed a r)).state ≡ (draws n (seed b s)).state
    → a ≡ b
unfolding seed random
seed-injective n a b r s a_small b_small h =
    let start = next_state 0 default_increment in
    let x = (start + a) % word in
    let y = (start + b) % word in
    let same : x ≡ y = next_state-injective x y default_increment (omega arith) (omega arith) (
      draws-injective n (next_state x default_increment) (next_state y default_increment)
        default_increment (next_state-small x default_increment)
        (next_state-small y default_increment) h) in
    omega (arith, same, a_small, b_small)

-- Generators that were given different seeds of a `u64` are never in the same state after the same
-- number of draws, whatever they were before.
pub seed-ne :
    (n a b : ℕ) (r s : Rng)
    → a < word
    → b < word
    → a ≢ b
    → (draws n (seed a r)).state ≢ (draws n (seed b s)).state
seed-ne n a b r s a_small b_small other h = other (seed-injective n a b r s a_small b_small h)

-- ===== src/Runtime/Codec/Clean.antt =====
-- Proofs on the text that runtime/rust/lana-runtime/src/codec.rs writes.
use lana.Prelude.{
  ℕ, zero, suc, ◌+◌, ◌/◌, ◌%◌, false, not, ◌||◌, List, [], ◌∷◌, ◌++◌, ok, require, >>=-eq-ok, ◌≡◌,
  refl, ap, subst, ◌∙◌, arith,
}
use lana.Bytecode.Error.{LanaError}
use lana.Bytecode.Objects.Text.{Str}
use lana.Runtime.Payload.{has_nul}
use lana.Runtime.Codec.{digits, decimal, hex_digit, escape, escape_all, encode_string}

pub has_nul-append : (xs ys : List ℕ) → has_nul (xs ++ ys) ≡ (has_nul xs || has_nul ys)
unfolding has_nul
has_nul-append [] ys = refl
has_nul-append (x ∷ xs) ys = let rest = has_nul-append xs ys in ground (arith, rest)

has_nul-digits :
    (fuel n : ℕ) (after : Str) → has_nul after ≡ false → has_nul (digits fuel n after) ≡ false
unfolding has_nul digits
has_nul-digits zero n after h = h
has_nul-digits (suc fuel) n after h =
    let more = has_nul-digits fuel (n / 10) ((48 + n % 10) ∷ after) (ground (arith, h)) in
    ground (arith, h, more)

pub has_nul-decimal : (n : ℕ) → has_nul (decimal n) ≡ false
unfolding decimal has_nul
has_nul-decimal n = has_nul-digits 20 n [] refl

has_nul-escape : (b : ℕ) → has_nul (escape b) ≡ false
unfolding escape has_nul hex_digit
has_nul-escape b = ground arith

has_nul-escape_all : (bs : Str) → has_nul (escape_all bs) ≡ false
unfolding escape_all has_nul
has_nul-escape_all [] = refl
has_nul-escape_all (b ∷ bs) =
    has_nul-append (escape b) (escape_all bs) ∙ (λ i. has_nul-escape b i || has_nul-escape_all bs i)

-- Encoded text never has a NUL.
pub has_nul-encode_string :
    (text bytes : Str) → encode_string text ≡ ok bytes → has_nul bytes ≡ false
unfolding encode_string has_nul
has_nul-encode_string text bytes h =
    let (_, _, e) = >>=-eq-ok (require (not (has_nul text)) LanaError.schema) _ h in
    let same : 34 ∷ (escape_all text ++ (34 ∷ [])) ≡ bytes = cc in
    subst (λ b. has_nul b ≡ false) same
      (has_nul-append (escape_all text) (34 ∷ []) ∙ ap (λ b. b || false) (has_nul-escape_all text))

-- ===== src/Runtime/Journal/Rounds.antt =====
-- Proofs on the rounds of `replay` in runtime/rust/lana-runtime/src/store.rs: how many there can be.
use lana.Prelude.{
  length-drop, ℕ, zero, suc, ◌+◌, ◌<◌, Bool, true, not, ltb, leb, List, [], ◌∷◌, length, take, drop,
  Result, ok, err, panic, ◌>>=◌, if_either, ◌≡◌, refl, arith,
}
use lana.Bytecode.Error.{LanaError}
use lana.Bytecode.Objects.Text.{str_eq, lit}
use lana.Bytecode.Loader.{Utf8}
use lana.Runtime.Words.{be_value, slice}
use lana.Runtime.Payload.{store_limit}
use lana.Runtime.Store.{
  Store, Raw, Read, raw_of, record_size, read_body, read_record, at_end, accept_record, replay_loop,
}

-- A whole record leaves fewer bytes.
unfoldable Shorter : ℕ → Read → Type 0
Shorter n Read.finished = Unit {0}
Shorter n Read.torn = Unit {0}
Shorter n Read.corrupt = Unit {0}
Shorter n (Read.whole r after) = length after < n

finished-Shorter : (n : ℕ) → Shorter n Read.finished
unfolding Shorter
finished-Shorter n = tt

torn-Shorter : (n : ℕ) → Shorter n Read.torn
unfolding Shorter
torn-Shorter n = tt

corrupt-Shorter : (n : ℕ) → Shorter n Read.corrupt
unfolding Shorter
corrupt-Shorter n = tt

whole-Shorter :
    (n : ℕ) (r : Raw) (after : List ℕ) → length after < n → Shorter n (Read.whole r after)
unfolding Shorter
whole-Shorter n r after h = h

read_body-Shorter : (rest : List ℕ) → 0 < length rest → Shorter (length rest) (read_body rest)
unfolding read_body
read_body-Shorter rest some_bytes =
    let n = length rest in
    let len = be_value (slice 24 8 rest) in
    let after = drop (record_size len) rest in
    let less : length after < n = omega (arith, length-drop (record_size len) rest, some_bytes) in
    if_either (Shorter n) (not (leb 64 n)) (torn-Shorter n) (
      if_either (Shorter n) (ltb store_limit len) (corrupt-Shorter n) (
        if_either (Shorter n) (not (leb (64 + len) n)) (torn-Shorter n) (
          if_either (Shorter n) (not (leb (68 + len) n)) (torn-Shorter n) (
            if_either (Shorter n) (not (leb (record_size len) n)) (torn-Shorter n)
              (whole-Shorter n (raw_of rest len) after less)))))

read_record-Shorter : (rest : List ℕ) → Shorter (length rest) (read_record rest)
unfolding read_record
read_record-Shorter [] = finished-Shorter 0
read_record-Shorter (x ∷ xs) =
    let n = length (x ∷ xs) in
    if_either (Shorter n) (not (leb 4 n)) (finished-Shorter n) (
      if_either (Shorter n) (not (str_eq (take 4 (x ∷ xs)) (lit "LREV"))) (corrupt-Shorter n)
        (read_body-Shorter (x ∷ xs) (omega arith)))

>>=-ext :
    {A B : Type 0} (m : Result LanaError A) (f g : A → Result LanaError B)
    → ((x : A) → f x ≡ g x)
    → (m >>= f) ≡ (m >>= g)
>>=-ext (ok x) f g h = h x
>>=-ext (err e) f g h = refl
>>=-ext panic f g h = refl

module _ (u : Utf8) where
  -- With more fuel than the journal has bytes left, the loop's result does not depend on the fuel:
  -- it ends by the code's own exits.
  pub replay_loop-fuel :
      (f g : ℕ) (s : Store) (journal_revision : ℕ) (saw : Bool) (rest : List ℕ)
      → length rest < f
      → length rest < g
      → replay_loop u f s journal_revision saw rest ≡ replay_loop u g s journal_revision saw rest
  unfolding replay_loop Shorter
  replay_loop-fuel zero g s journal_revision saw rest more enough = absurd (omega arith)
  replay_loop-fuel (suc f) zero s journal_revision saw rest more enough = absurd (omega arith)
  replay_loop-fuel (suc f) (suc g) s journal_revision saw rest more enough =
      go (read_record rest) (read_record-Shorter rest) (λ s₁ revision after less.
        replay_loop-fuel f g s₁ revision true after (omega (arith, less, more))
          (omega (arith, less, enough)))
    where
      go :
          (x : Read)
          → Shorter (length rest) x
          → ((s₁ : Store) (revision : ℕ) (after : List ℕ)
              → length after < length rest
              → replay_loop u f s₁ revision true after ≡ replay_loop u g s₁ revision true after)
          → (elim x [
            | Read.finished ↦ at_end s journal_revision saw
            | Read.torn ↦ ok s
            | Read.corrupt ↦ err LanaError.corruption
            | Read.whole r after ↦ accept_record u journal_revision r s >>= λ (s₁, revision).
                replay_loop u f s₁ revision true after
          ])
            ≡ (elim x [
              | Read.finished ↦ at_end s journal_revision saw
              | Read.torn ↦ ok s
              | Read.corrupt ↦ err LanaError.corruption
              | Read.whole r after ↦ accept_record u journal_revision r s >>= λ (s₁, revision).
                  replay_loop u g s₁ revision true after
            ])
      go Read.finished less next = refl
      go Read.torn less next = refl
      go Read.corrupt less next = refl
      go (Read.whole r after) less next =
          >>=-ext (accept_record u journal_revision r s) _ _ (λ p. next p.0 p.1 after less)

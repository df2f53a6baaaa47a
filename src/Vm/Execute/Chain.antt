-- ===== src/Vm/Execute/Chain.antt =====
-- The steps of an arm of `execute` of vm/rust/lana-vm/src/vm.rs, one after another.
use lana.Prelude.{
  Bool, true, false, Option, some, none, ok, err, panic, ◌≡◌, refl, subst, sym, ◌>>=◌, or_panic,
  ok_or, require,
}
use mathlib.Core.Option.{some-injective}
use lana.Vm.Machine.{Run, Fault}

-- A property of outcomes, which holds of a chain if it holds of what follows its first step.
module _ {κ} {B : Type κ} (Q : Run B → Type 0) where
  pub require_then :
      (b : Bool) (f : Fault) (next : Unit {0} → Run B)
      → Q (err f)
      → (b ≡ true → Q (next tt))
      → Q (require b f >>= next)
  require_then true f next failed h = h refl
  require_then false f next failed h = failed

  pub or_panic_then {ℓ} :
      {A : Type ℓ} (o : Option A) (next : A → Run B) {a : A}
      → o ≡ some a
      → Q (next a)
      → Q (or_panic o >>= next)
  or_panic_then (some b) next e h = subst (λ a. Q (next a)) (sym (some-injective _ _ e)) h
  or_panic_then none next e h = cc

  pub ok_or_then {ℓ} :
      {A : Type ℓ} (o : Option A) (f : Fault) (next : A → Run B)
      → Q (err f)
      → ((a : A) → o ≡ some a → Q (next a))
      → Q (ok_or o f >>= next)
  ok_or_then (some a) f next failed h = h a refl
  ok_or_then none f next failed h = failed

  pub ok_then {ℓ} :
      {A : Type ℓ} (first : Run A) (next : A → Run B) {a : A}
      → first ≡ ok a
      → Q (next a)
      → Q (first >>= next)
  ok_then (ok b) next {a = a} e h = let same : a ≡ b = cc in subst (λ x. Q (next x)) same h
  ok_then (err f) next e h = cc
  ok_then panic next e h = cc

  pub err_then {ℓ} :
      {A : Type ℓ} (first : Run A) (next : A → Run B) {f : Fault}
      → first ≡ err f
      → Q (err f)
      → Q (first >>= next)
  err_then (ok b) next e h = cc
  err_then (err g) next {f = f} e h = let same : f ≡ g = cc in subst (λ x. Q (err x)) same h
  err_then panic next e h = cc

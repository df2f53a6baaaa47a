-- ===== src/Prelude/Outcome.antt =====
-- `Result<A, E>`, with the panic of an index out of range or a failed `unwrap` as a third case.
use mathlib.Core.Path.{◌≡◌, refl}
use mathlib.Core.Bool.{Bool, true, false}
use mathlib.Core.Option.{Option, none, some}

pub data Result {ℓ} (E : Type 0) (A : Type ℓ) : Type ℓ where
  ok : A → Result E A
  err : E → Result E A
  panic : Result E A

infixl 5 ◌>>=◌ ◌>>◌
abbrev pub ◌>>=◌ {ℓ κ} :
    {E : Type 0} {A : Type ℓ} {B : Type κ} → Result E A → (A → Result E B) → Result E B
panic >>= next = panic
err e >>= next = err e
ok a >>= next = next a

abbrev pub ◌>>◌ {ℓ} : {E : Type 0} {B : Type ℓ} → Result E (Unit {0}) → Result E B → Result E B
first >> next = first >>= λ _. next

-- A check that the code makes before it goes on.
abbrev pub require : {E : Type 0} → Bool → E → Result E (Unit {0})
require false e = err e
require true e = ok tt

-- `option.ok_or(e)?`
abbrev pub ok_or {ℓ} : {E : Type 0} {A : Type ℓ} → Option A → E → Result E A
ok_or (some a) e = ok a
ok_or none e = err e

-- `slice[i]`, which panics out of range.
abbrev pub or_panic {ℓ} : {E : Type 0} {A : Type ℓ} → Option A → Result E A
or_panic (some a) = ok a
or_panic none = panic

-- `map_err`
abbrev pub map_err {ℓ} : {E F : Type 0} {A : Type ℓ} → (E → F) → Result E A → Result F A
map_err f (ok a) = ok a
map_err f (err e) = err (f e)
map_err f panic = panic

-- Inversion of a successful chain.
pub >>=-eq-ok {ℓ κ} :
    {E : Type 0} {A : Type ℓ} {B : Type κ} (first : Result E A) (next : A → Result E B) {b : B}
    → (first >>= next) ≡ ok b
    → (a : A) × (first ≡ ok a) × (next a ≡ ok b)
>>=-eq-ok panic next h = cc
>>=-eq-ok (err e) next h = cc
>>=-eq-ok (ok a) next h = (a, refl, h)

pub require-eq-ok : {E : Type 0} (b : Bool) (e : E) → require b e ≡ ok tt → b ≡ true
require-eq-ok false e h = cc
require-eq-ok true e h = refl

pub or_panic-eq-ok {ℓ} :
    {E : Type 0} {A : Type ℓ} (o : Option A) {a : A} → or_panic {E = E} o ≡ ok a → o ≡ some a
or_panic-eq-ok (some b) h = cc
or_panic-eq-ok none h = cc

pub ok_or-eq-ok {ℓ} :
    {E : Type 0} {A : Type ℓ} (o : Option A) (e : E) {a : A} → ok_or o e ≡ ok a → o ≡ some a
ok_or-eq-ok (some b) e h = cc
ok_or-eq-ok none e h = cc

pub map_err-eq-ok {ℓ} :
    {E F : Type 0} {A : Type ℓ} (f : E → F) (m : Result E A) {a : A} → map_err f m ≡ ok a → m ≡ ok a
map_err-eq-ok f (ok b) h = cc
map_err-eq-ok f (err e) h = cc
map_err-eq-ok f panic h = cc

-- ===== src/Bytecode/Loader/Parses.antt =====
-- When a reading function turns the bytes `x` into the value `v`, wherever they stand, and the
-- rules for the functions of the loader.
use mathlib.Core.List.{append_assoc, append-nil}
use native.Mathlib.Nat.{mod-eq_of_lt}
use lana.Prelude.{
  ℕ, ◌+◌, ◌^◌, ◌<◌, Bool, true, List, [], ◌∷◌, ◌++◌, length, map, get_elem?, ◌≡◌, refl, ap, subst,
  sym, ◌∙◌, ok, some, leb, le→leb, take_append, drop_append, length-append, All, arith,
}
use lana.Bytecode.Error.{LanaErrorInfo}
use lana.Bytecode.Bytes.{le_bytes, length-le_bytes, le_value-le_bytes}
use lana.Bytecode.Encoder.{u32_bytes, len_bytes, encode_all}
use lana.Bytecode.Loader.{load_many}
use lana.Bytecode.Loader.Read.{
  Reader, read_u8, read_bytes, read_le, Load, ◌>>=◌, ◌>>◌, return, guard, or_truncated, u8, u32,
  u64, slice,
}

-- A reader that has passed `pre` and stands before `rest`.
unfoldable pub reader : List ℕ → List ℕ → Reader
reader pre rest = record { bytes = pre ++ rest; offset = length pre }

abbrev pub Parses {ℓ} : {A : Type ℓ} → Load A → List ℕ → A → Type ℓ
Parses p x v = (pre rest : List ℕ) → p (reader pre (x ++ rest)) ≡ ok (v, reader (pre ++ x) rest)

module _ {ℓ} {A : Type ℓ} where
  pub Parses-return : (v : A) → Parses (return v) [] v
  Parses-return v pre rest = rw append-nil

  pub Parses-guard :
      (p : Load A) (x : List ℕ) {v : A} (b : Bool) (e : LanaErrorInfo)
      → b ≡ true
      → Parses p x v
      → Parses (guard b e >> p) x v
  Parses-guard p x b e h parses pre rest = rw h (parses pre rest)

  load-bind {κ} :
      {B : Type κ} (p : Load A) (f : A → Load B) (r : Reader) {a : A} {r' : Reader}
      → p r ≡ ok (a, r')
      → (p >>= f) r ≡ f a r'
  load-bind p f r h = rw (h, ◌>>=◌)

  pub Parses-bind {κ} :
      {B : Type κ} (p : Load A) (f : A → Load B) (x y : List ℕ) {v : A} {w : B}
      → Parses p x v
      → Parses (f v) y w
      → Parses (p >>= f) (x ++ y) w
  Parses-bind p f x y {w = w} hp hf pre rest = rw (append_assoc x y rest) (
      load-bind p f _ (hp pre (y ++ rest))
      ∙ hf (pre ++ x) rest
      ∙ ap (λ l. ok (w, reader l rest)) (append_assoc pre x y))

  -- A last `bind` whose continuation reads nothing.
  pub Parses-last {κ} :
      {B : Type κ} (p : Load A) (f : A → Load B) (x : List ℕ) {v : A} {w : B}
      → Parses p x v
      → Parses (f v) [] w
      → Parses (p >>= f) x w
  Parses-last p f x {w = w} hp hf =
      subst (λ y. Parses (p >>= f) y w) (append-nil x) (Parses-bind p f x [] hp hf)

  -- A last `bind` whose continuation only returns.
  pub Parses-map {κ} :
      {B : Type κ} (p : Load A) (f : A → B) (x : List ℕ) {v : A}
      → Parses p x v
      → Parses (p >>= λ a. return (f a)) x (f v)
  Parses-map p f x hp pre rest = load-bind p (λ a. return (f a)) _ (hp pre rest)

-- A counted loop reads back what a loop over the list has written.
pub Parses-many {ℓ κ} :
    {A : Type ℓ} {B : Type κ} (item : Load B) (enc : A → List ℕ) (out : A → B) (xs : List A)
    → All (λ x. Parses item (enc x) (out x)) xs
    → Parses (load_many item (length xs)) (encode_all enc xs) (map out xs)
unfolding load_many encode_all
Parses-many {B} item enc out [] h pre rest = Parses-return {A = List B} [] pre rest
Parses-many item enc out (x ∷ xs) h pre rest =
    Parses-bind item (λ y. load_many item (length xs) >>= λ ys. return (y ∷ ys)) (enc x)
      (encode_all enc xs) h.0
      (Parses-map (load_many item (length xs)) (λ ys. out x ∷ ys) (encode_all enc xs)
        (Parses-many item enc out xs h.1))
      pre rest

read_bytes-append :
    (x pre rest : List ℕ)
    → read_bytes (length x) (reader pre (x ++ rest)) ≡ some (x, reader (pre ++ x) rest)
unfolding read_bytes reader
read_bytes-append x pre rest =
    let fits : leb (length pre + length x) (length (pre ++ (x ++ rest))) ≡ true =
      le→leb _ _ (omega (arith, length-append pre (x ++ rest), length-append x rest)) in
    rw (fits, drop_append pre (x ++ rest), take_append x rest, append_assoc, length-append)

read_le-append :
    (k n : ℕ) (pre rest : List ℕ)
    → n < 256 ^ k
    → read_le k (reader pre (le_bytes k n ++ rest)) ≡ some (n, reader (pre ++ le_bytes k n) rest)
unfolding read_le
read_le-append k n pre rest h =
    let bs = le_bytes k n in
    let slice_eq =
      subst (λ j. read_bytes j (reader pre (bs ++ rest)) ≡ some (bs, reader (pre ++ bs) rest))
        (length-le_bytes k n) (read_bytes-append bs pre rest) in
    rw (slice_eq, read_le, le_value-le_bytes k n h)

pub Parses-slice : (x : List ℕ) → Parses (slice (length x)) x x
unfolding slice
Parses-slice x pre rest = rw (read_bytes-append x pre rest, slice, or_truncated)

get_elem?-append :
    (pre : List ℕ) (b : ℕ) (rest : List ℕ) → get_elem? (pre ++ (b ∷ rest)) (length pre) ≡ some b
get_elem?-append [] b rest = refl
get_elem?-append (p ∷ pre) b rest = get_elem?-append pre b rest

pub Parses-u8 : (b : ℕ) → Parses u8 (b ∷ []) b
unfolding u8 read_u8 reader
Parses-u8 b pre rest =
    rw (get_elem?-append pre b rest, u8, read_u8, or_truncated, append_assoc, length-append)

pub Parses-u32 : (n : ℕ) → n < 2 ^ 32 → Parses u32 (u32_bytes n) n
unfolding u32
Parses-u32 n h pre rest = rw (read_le-append 4 n pre rest h, u32, or_truncated)

pub Parses-u64 : (n : ℕ) → n < 2 ^ 64 → Parses u64 (le_bytes 8 n) n
unfolding u64
Parses-u64 n h pre rest = rw (read_le-append 8 n pre rest h, u64, or_truncated)

-- A length below 2^32 is written whole.
pub Parses-len {ℓ} :
    {A : Type ℓ} (xs : List A) → length xs < 2 ^ 32 → Parses u32 (len_bytes xs) (length xs)
Parses-len xs h =
    subst (λ n. Parses u32 (u32_bytes n) (length xs)) (sym (mod-eq_of_lt h))
      (Parses-u32 (length xs) h)

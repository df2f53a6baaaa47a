-- ===== src/Runtime/Digest/Stream.antt =====
-- Proofs on `update` of vm/rust/lana-vm/src/sha256.rs: rounds of blocks against single bytes.
use Prim.Native.Nat.add
use lana.Prelude.{
  ℕ, zero, suc, ◌+◌, ◌-◌, ◌*◌, ◌%◌, ◌^◌, ◌<◌, ◌≤◌, min, ◌==◌, List, [], ◌∷◌, ◌++◌, length, take,
  drop, length-append, length-drop, ◌≡◌, refl, ap, subst, sym, ◌∙◌, arith, Bool-cases, inl, inr,
  false,
}
use lana.Runtime.Words.{be_bytes, length-be_bytes, length-take, take-drop}
use lana.Runtime.Digest.{
  Sha256, new, transform, copy_into, flush, fill, absorb, update_loop, update, finalize, sha256,
  word_bytes,
}

copy_into-suc :
    (c : ℕ) (block : List ℕ) (i : ℕ) (bytes : List ℕ)
    → copy_into (c ∷ block) (suc i) bytes ≡ c ∷ copy_into block i bytes
unfolding copy_into
copy_into-suc c block i bytes = rw add.suc

copy_into-first :
    (c : ℕ) (block : List ℕ) (x : ℕ) (xs : List ℕ)
    → copy_into (copy_into (c ∷ block) 0 (x ∷ [])) 1 xs ≡ copy_into (c ∷ block) 0 (x ∷ xs)
unfolding copy_into
copy_into-first c block x xs =
    let one : 1 + length xs ≡ suc (length xs) = omega arith in
    let all : 0 + suc (length xs) ≡ suc (length xs) = omega arith in rw (one, all)

length-copy_into :
    (block : List ℕ) (i : ℕ) (bytes : List ℕ)
    → i + length bytes ≤ length block
    → length (copy_into block i bytes) ≡ length block
unfolding copy_into
length-copy_into block i bytes h = omega (
  arith,
  length-append (take i block) (bytes ++ drop (i + length bytes) block),
  length-append bytes (drop (i + length bytes) block),
  length-take i block (omega arith),
  length-drop (i + length bytes) block,
)

-- Copying a byte and then the rest behind it copies them all.
copy_into-cons :
    (block : List ℕ) (i x : ℕ) (xs : List ℕ)
    → i < length block
    → copy_into (copy_into block i (x ∷ [])) (suc i) xs ≡ copy_into block i (x ∷ xs)
copy_into-cons [] i x xs h = absurd (omega arith)
copy_into-cons (c ∷ block) zero x xs h = copy_into-first c block x xs
copy_into-cons (c ∷ block) (suc i) x xs h =
    rw
      (
        copy_into-suc c block i (x ∷ []),
        copy_into-suc c (copy_into block i (x ∷ [])) (suc i) xs,
        copy_into-suc c block i (x ∷ xs),
      )
      (ap (λ l. c ∷ l) (copy_into-cons block i x xs (omega arith)))

-- The block buffer of a context: it is not full between the calls.
pub record IsReady (s : Sha256) : Type 0 where
  pub room : s.block_length < 64
  pub size : length s.block ≡ 64

flush-partial : (s : Sha256) → s.block_length < 64 → flush s ≡ s
unfolding flush
flush-partial s h = let other : (s.block_length == 64) ≡ false = ground arith in rw other

flush-IsReady : (s : Sha256) → s.block_length ≤ 64 → length s.block ≡ 64 → IsReady (flush s)
unfolding flush
flush-IsReady s h e = elim (Bool-cases (s.block_length == 64)) [
  | inl full ↦ rw full (record { room = omega arith; size = e })
  | inr other ↦ rw other (record { room = ground arith; size = e })
]

absorb-IsReady :
    (bytes : List ℕ) (s : Sha256)
    → s.block_length + length bytes ≤ 64
    → length s.block ≡ 64
    → IsReady (absorb bytes s)
unfolding absorb fill
absorb-IsReady bytes s h e =
    flush-IsReady (fill bytes s) h
      (length-copy_into s.block s.block_length bytes (omega (arith, e)) ∙ e)

fill-cons :
    (x : ℕ) (xs : List ℕ) (s : Sha256)
    → s.block_length < length s.block
    → fill xs (fill (x ∷ []) s) ≡ fill (x ∷ xs) s
unfolding fill
fill-cons x xs s h =
    let one : s.block_length + 1 ≡ suc s.block_length = omega arith in
    let first = copy_into-cons s.block s.block_length x xs h in
    let total : ((s.length + 1) % 2 ^ 64 + length xs) % 2 ^ 64
        ≡ (s.length + suc (length xs)) % 2 ^ 64 =
      omega arith in
    let placed =
      subst
        (λ k.
          copy_into (copy_into s.block s.block_length (x ∷ [])) k xs
          ≡ copy_into s.block s.block_length (x ∷ xs))
        (sym one) first in
    let count : s.block_length + 1 + length xs ≡ s.block_length + suc (length xs) = omega arith in
    λ i. record { state = s.state; length = total i; block = placed i; block_length = count i }

-- A round that takes several bytes takes the first, and then the others.
absorb-cons :
    (x y : ℕ) (xs : List ℕ) (s : Sha256)
    → IsReady s
    → s.block_length + length (x ∷ y ∷ xs) ≤ 64
    → absorb (y ∷ xs) (absorb (x ∷ []) s) ≡ absorb (x ∷ y ∷ xs) s
unfolding absorb
absorb-cons x y xs s r h =
    let early : flush (fill (x ∷ []) s) ≡ fill (x ∷ []) s =
      flush-partial (fill (x ∷ []) s) (unfold fill in omega arith) in
    let whole = fill-cons x (y ∷ xs) s (omega (arith, r.size, r.room)) in
    ap (λ t. flush (fill (y ∷ xs) t)) early ∙ ap flush whole

absorb-length :
    (x : ℕ) (s : Sha256)
    → s.block_length + 1 < 64
    → (absorb (x ∷ []) s).block_length ≡ s.block_length + 1
unfolding absorb
absorb-length x s h =
    ap (λ (t : Sha256). t.block_length)
      (flush-partial (fill (x ∷ []) s) (unfold fill in omega arith))
    ∙ unfold fill in refl

-- The specification: the bytes are taken one at a time.
unfoldable pub one_by_one : List ℕ → Sha256 → Sha256
unfolding absorb
one_by_one [] s = s
one_by_one (b ∷ bs) s = one_by_one bs (absorb (b ∷ []) s)

absorb-one_by_one :
    (x : ℕ) (xs : List ℕ) (s : Sha256)
    → IsReady s
    → s.block_length + length (x ∷ xs) ≤ 64
    → absorb (x ∷ xs) s ≡ one_by_one (x ∷ xs) s
unfolding one_by_one
absorb-one_by_one x [] s r h = refl
absorb-one_by_one x (y ∷ ys) s r h =
    let later = absorb (x ∷ []) s in
    let more = absorb-length x s (omega arith) in
    sym (absorb-cons x y ys s r h)
    ∙ absorb-one_by_one y ys later (absorb-IsReady (x ∷ []) s (omega arith) r.size)
        (omega (arith, more))

one_by_one-append :
    (xs ys : List ℕ) (s : Sha256) → one_by_one (xs ++ ys) s ≡ one_by_one ys (one_by_one xs s)
unfolding one_by_one
one_by_one-append [] ys s = refl
one_by_one-append (x ∷ xs) ys s = one_by_one-append xs ys (absorb (x ∷ []) s)

one_by_one-IsReady : (bytes : List ℕ) (s : Sha256) → IsReady s → IsReady (one_by_one bytes s)
unfolding one_by_one
one_by_one-IsReady [] s r = r
one_by_one-IsReady (b ∷ bs) s r =
    one_by_one-IsReady bs (absorb (b ∷ []) s)
      (absorb-IsReady (b ∷ []) s (omega (arith, r.room)) r.size)

-- With as much fuel as there are bytes, the loop of `update` ends with all of them taken.
update_loop-one_by_one :
    (fuel : ℕ) (bytes : List ℕ) (s : Sha256)
    → length bytes ≤ fuel
    → IsReady s
    → update_loop fuel bytes s ≡ one_by_one bytes s
unfolding update_loop one_by_one
update_loop-one_by_one fuel [] s h r = refl
update_loop-one_by_one zero (d ∷ ds) s h r = absurd (omega arith)
update_loop-one_by_one (suc fuel) (d ∷ ds) s h r =
    let k = min (length ds) (63 - s.block_length) in
    let copied : min (suc (length ds)) (64 - s.block_length) ≡ suc k = omega (arith, r.room) in
    let front = d ∷ take k ds in
    let size = length-take k ds (omega arith) in
    let shorter = length-drop k ds in
    let taken = absorb-one_by_one d (take k ds) s r (omega (arith, size, r.room)) in
    subst
      (λ n. update_loop fuel (drop n (d ∷ ds)) (absorb (take n (d ∷ ds)) s) ≡ one_by_one (d ∷ ds) s)
      (sym copied)
      (ap (λ t. update_loop fuel (drop k ds) t) taken
        ∙ update_loop-one_by_one fuel (drop k ds) (one_by_one front s) (omega (arith, shorter))
            (one_by_one-IsReady front s r)
        ∙ sym (one_by_one-append front (drop k ds) s)
        ∙ ap (λ l. one_by_one (d ∷ l) s) (take-drop k ds))

update-one_by_one : (bytes : List ℕ) (s : Sha256) → IsReady s → update bytes s ≡ one_by_one bytes s
unfolding update
update-one_by_one bytes s r = update_loop-one_by_one (length bytes) bytes s (omega arith) r

-- On a context whose block is not full, `update` takes the bytes one at a time, whatever the
-- blocks are that it copies, and feeding two slices one after the other is feeding their
-- concatenation.
pub update_append :
    (xs ys : List ℕ) (s : Sha256)
    → IsReady s
    → (update xs s ≡ one_by_one xs s) × (update (xs ++ ys) s ≡ update ys (update xs s))
update_append xs ys s r =
    let whole = update-one_by_one (xs ++ ys) s r in
    let front = update-one_by_one xs s r in
    let back = update-one_by_one ys (one_by_one xs s) (one_by_one-IsReady xs s r) in
    (front, whole ∙ one_by_one-append xs ys s ∙ sym back ∙ ap (update ys) (sym front))

pub new-IsReady : IsReady new
unfolding new
new-IsReady = record { room = omega arith; size = refl }

length-word_bytes : (ws : List ℕ) → length (word_bytes ws) ≡ length ws * 4
unfolding word_bytes
length-word_bytes [] = refl
length-word_bytes (w ∷ ws) =
    omega (
      arith,
      length-append (be_bytes 4 w) (word_bytes ws),
      length-be_bytes 4 w,
      length-word_bytes ws,
    )

length-transform : (state block : List ℕ) → length (transform state block) ≡ 8
unfolding transform
length-transform state block = refl

-- A digest has 32 bytes.
pub length-sha256 : (bytes : List ℕ) → length (sha256 bytes) ≡ 32
unfolding sha256 finalize
length-sha256 bytes = omega (arith, length-word_bytes _)

-- ===== src/Runtime/Digest.antt =====
-- vm/rust/lana-vm/src/sha256.rs, which runtime/rust/lana-runtime/src/sha256.rs passes on. A `u32` and
-- a `u8` are native numbers, an array is a list of its length, and `at` stands for an index of such
-- an array, which is never out of range.
use Prim.Native.Nat.{bit_and, bit_or, bit_xor}
use lana.Prelude.{
  ℕ, zero, suc, ◌+◌, ◌-◌, ◌*◌, ◌/◌, ◌%◌, ◌^◌, min, ltb, ◌==◌, if◌then◌else◌, List, [], ◌∷◌, ◌++◌,
  length, take, drop, replicate,
}
use lana.Runtime.Words.{be_bytes}
pub mod Stream

abbrev pub at : List ℕ → ℕ → ℕ
at [] i = 0
at (x ∷ xs) zero = x
at (x ∷ xs) (suc i) = at xs i

abbrev word : ℕ → ℕ
word n = n % 2 ^ 32

-- `wrapping_add`
abbrev add : ℕ → ℕ → ℕ
add a b = word (a + b)

abbrev shr : ℕ → ℕ → ℕ
shr x k = x / 2 ^ k

-- `rotate_right`
unfoldable pub rotate_right : ℕ → ℕ → ℕ
rotate_right value count = bit_or (shr value count) (word (value * 2 ^ (32 - count)))

abbrev round_constants : List ℕ
round_constants =
    0x428a2f98 ∷ 0x71374491 ∷ 0xb5c0fbcf ∷ 0xe9b5dba5 ∷ 0x3956c25b ∷ 0x59f111f1 ∷ 0x923f82a4
    ∷ 0xab1c5ed5 ∷ 0xd807aa98 ∷ 0x12835b01 ∷ 0x243185be ∷ 0x550c7dc3 ∷ 0x72be5d74 ∷ 0x80deb1fe
    ∷ 0x9bdc06a7 ∷ 0xc19bf174 ∷ 0xe49b69c1 ∷ 0xefbe4786 ∷ 0x0fc19dc6 ∷ 0x240ca1cc ∷ 0x2de92c6f
    ∷ 0x4a7484aa ∷ 0x5cb0a9dc ∷ 0x76f988da ∷ 0x983e5152 ∷ 0xa831c66d ∷ 0xb00327c8 ∷ 0xbf597fc7
    ∷ 0xc6e00bf3 ∷ 0xd5a79147 ∷ 0x06ca6351 ∷ 0x14292967 ∷ 0x27b70a85 ∷ 0x2e1b2138 ∷ 0x4d2c6dfc
    ∷ 0x53380d13 ∷ 0x650a7354 ∷ 0x766a0abb ∷ 0x81c2c92e ∷ 0x92722c85 ∷ 0xa2bfe8a1 ∷ 0xa81a664b
    ∷ 0xc24b8b70 ∷ 0xc76c51a3 ∷ 0xd192e819 ∷ 0xd6990624 ∷ 0xf40e3585 ∷ 0x106aa070 ∷ 0x19a4c116
    ∷ 0x1e376c08 ∷ 0x2748774c ∷ 0x34b0bcb5 ∷ 0x391c0cb3 ∷ 0x4ed8aa4a ∷ 0x5b9cca4f ∷ 0x682e6ff3
    ∷ 0x748f82ee ∷ 0x78a5636f ∷ 0x84c87814 ∷ 0x8cc70208 ∷ 0x90befffa ∷ 0xa4506ceb ∷ 0xbef9a3f7
    ∷ 0xc67178f2 ∷ []

pub record Sha256 : Type 0 where
  pub state : List ℕ
  pub length : ℕ
  pub block : List ℕ
  pub block_length : ℕ

unfoldable pub new : Sha256
new = record {
  state =
      0x6a09e667 ∷ 0xbb67ae85 ∷ 0x3c6ef372 ∷ 0xa54ff53a ∷ 0x510e527f ∷ 0x9b05688c ∷ 0x1f83d9ab
      ∷ 0x5be0cd19 ∷ [];
  length = 0;
  block = replicate 64 0;
  block_length = 0;
}

-- `words[0..16]`, the block's big-endian words.
unfoldable pub block_words : ℕ → List ℕ → List ℕ
block_words zero block = []
block_words (suc n) block =
    bit_or (at block 0 * 2 ^ 24)
      (bit_or (at block 1 * 2 ^ 16) (bit_or (at block 2 * 2 ^ 8) (at block 3)))
    ∷ block_words n (drop 4 block)

-- `words[index]` from the words before it.
unfoldable pub next_word : ℕ → List ℕ → ℕ
unfolding rotate_right
next_word index words =
    let w15 = at words (index - 15) in
    let w2 = at words (index - 2) in
    let s0 = bit_xor (bit_xor (rotate_right w15 7) (rotate_right w15 18)) (shr w15 3) in
    let s1 = bit_xor (bit_xor (rotate_right w2 17) (rotate_right w2 19)) (shr w2 10) in
    add (add (add (at words (index - 16)) s0) (at words (index - 7))) s1

-- `for index in 16..64`, with `count` rounds left.
unfoldable pub extend_words : ℕ → ℕ → List ℕ → List ℕ
unfolding next_word
extend_words zero index words = words
extend_words (suc count) index words =
    extend_words count (suc index) (words ++ (next_word index words ∷ []))

-- The working variables `a` to `h`.
pub record Work : Type 0 where
  pub a : ℕ
  pub b : ℕ
  pub c : ℕ
  pub d : ℕ
  pub e : ℕ
  pub f : ℕ
  pub g : ℕ
  pub h : ℕ

unfoldable pub round : ℕ → ℕ → Work → Work
unfolding rotate_right
round constant w v =
    let s1 = bit_xor (bit_xor (rotate_right v.e 6) (rotate_right v.e 11)) (rotate_right v.e 25) in
    let choose = bit_xor (bit_and v.e v.f) (bit_and (2 ^ 32 - 1 - v.e) v.g) in
    let temporary1 = add (add (add (add v.h s1) choose) constant) w in
    let s0 = bit_xor (bit_xor (rotate_right v.a 2) (rotate_right v.a 13)) (rotate_right v.a 22) in
    let majority = bit_xor (bit_xor (bit_and v.a v.b) (bit_and v.a v.c)) (bit_and v.b v.c) in
    let temporary2 = add s0 majority in
    record {
      a = add temporary1 temporary2;
      b = v.a;
      c = v.b;
      d = v.c;
      e = add v.d temporary1;
      f = v.e;
      g = v.f;
      h = v.g;
    }

unfoldable pub rounds : List ℕ → List ℕ → Work → Work
unfolding round
rounds [] ws v = v
rounds (k ∷ ks) [] v = v
rounds (k ∷ ks) (w ∷ ws) v = rounds ks ws (round k w v)

unfoldable pub transform : List ℕ → List ℕ → List ℕ
unfolding rounds extend_words block_words
transform state block =
    let words = extend_words 48 16 (block_words 16 block) in
    let start : Work = record {
      a = at state 0;
      b = at state 1;
      c = at state 2;
      d = at state 3;
      e = at state 4;
      f = at state 5;
      g = at state 6;
      h = at state 7;
    } in
    let v = rounds round_constants words start in
    add start.a v.a
    ∷ add start.b v.b
    ∷ add start.c v.c
    ∷ add start.d v.d
    ∷ add start.e v.e
    ∷ add start.f v.f
    ∷ add start.g v.g
    ∷ add start.h v.h
    ∷ []

-- `block[at..at + len].copy_from_slice(bytes)`
unfoldable pub copy_into : List ℕ → ℕ → List ℕ → List ℕ
copy_into block i bytes = take i block ++ (bytes ++ drop (i + length bytes) block)

-- The end of a round of `update`: a full block is transformed.
unfoldable pub flush : Sha256 → Sha256
unfolding transform
flush s =
    if s.block_length == 64
    then record s { state = transform s.state s.block; block_length = 0 }
    else s

-- The part of a round of `update` that copies `data[..copied]`. The length is a `u64`.
unfoldable pub fill : List ℕ → Sha256 → Sha256
unfolding copy_into
fill bytes s = record s {
  block = copy_into s.block s.block_length bytes;
  block_length = s.block_length + length bytes;
  length = (s.length + length bytes) % 2 ^ 64;
}

unfoldable pub absorb : List ℕ → Sha256 → Sha256
unfolding fill flush
absorb bytes s = flush (fill bytes s)

-- `while !data.is_empty()`, on fuel; a round takes at least one byte.
unfoldable pub update_loop : ℕ → List ℕ → Sha256 → Sha256
unfolding absorb
update_loop fuel [] s = s
update_loop zero (d ∷ ds) s = s
update_loop (suc fuel) (d ∷ ds) s =
    let copied = min (length (d ∷ ds)) (64 - s.block_length) in
    update_loop fuel (drop copied (d ∷ ds)) (absorb (take copied (d ∷ ds)) s)

unfoldable pub update : List ℕ → Sha256 → Sha256
unfolding update_loop
update bytes s = update_loop (length bytes) bytes s

abbrev fill_zero : ℕ → ℕ → List ℕ → List ℕ
fill_zero from to block = copy_into block from (replicate (to - from) 0)

-- After the mark 0x80: a block without room for the length is transformed.
unfoldable pub make_room : Sha256 → Sha256
unfolding transform copy_into
make_room s =
    if ltb 56 s.block_length
    then record s {
      state = transform s.state (fill_zero s.block_length 64 s.block);
      block = fill_zero s.block_length 64 s.block;
      block_length = 0;
    }
    else s

unfoldable pub word_bytes : List ℕ → List ℕ
unfolding be_bytes
word_bytes [] = []
word_bytes (w ∷ ws) = be_bytes 4 w ++ word_bytes ws

unfoldable pub finalize : Sha256 → List ℕ
unfolding make_room copy_into transform be_bytes word_bytes
finalize s =
    let bits = s.length * 8 % 2 ^ 64 in
    let s₁ = make_room (record s {
      block = copy_into s.block s.block_length (0x80 ∷ []);
      block_length = s.block_length + 1;
    }) in
    let block = take 56 (fill_zero s₁.block_length 56 s₁.block) ++ be_bytes 8 bits in
    word_bytes (transform s₁.state block)

unfoldable pub sha256 : List ℕ → List ℕ
unfolding new update finalize
sha256 bytes = finalize (update bytes new)

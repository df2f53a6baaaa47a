-- ===== src/Heap/Buffer.antt =====
-- `Buffer` of vm/rust/lana-vm/src/heap.rs, one without a write barrier: a vector whose capacity is
-- charged to the heap. `size` is the element's size, `granted` the system allocator's answer to a
-- capacity, and the vector gets the capacity it asks for.
use lana.Prelude.{
  ℕ, ◌+◌, ◌-◌, ◌*◌, ◌^◌, max, Bool, true, false, ◌&&◌, ltb, leb, if◌then◌else◌, Option, none, some,
  List, [], ◌∷◌, ◌++◌, Result, ok, err, panic, length, take, replicate,
}
use lana.Bytecode.Error.{LanaError}
use lana.Heap.State.{Admitted, State, saturating_mul, resize, resize_to, reserve, release}
pub mod Growth
pub mod Exact
pub mod Extend

pub record Buffer {ℓ} (A : Type ℓ) : Type ℓ where
  pub values : List A
  pub capacity : ℕ
  pub bytes : ℕ
  pub owner_bytes : ℕ

-- `Buffer::bytes`
unfoldable pub bytes_for : ℕ → ℕ → ℕ → Option ℕ
bytes_for size capacity owner =
    if ltb (capacity * size) (2 ^ 64) && ltb (capacity * size + owner) (2 ^ 64)
    then some (capacity * size + owner)
    else none

-- The heap, the buffer and the result after a call.
abbrev pub Answer {ℓ} : Type ℓ → Type ℓ
Answer A = State × Buffer A × Admitted

unfoldable pub append {ℓ} : {A : Type ℓ} → List A → Answer A → Answer A
append xs (s, b, ok _) = (s, record b { values = b.values ++ xs }, ok tt)
append xs (s, b, failure) = (s, b, failure)

-- `self.reservation.resize(old_bytes)?` and the error after it.
unfoldable pub roll_back {ℓ} : {A : Type ℓ} → Buffer A → State × ℕ × Admitted → Answer A
roll_back b (s, old, ok _) = (s, record b { bytes = old }, err LanaError.oom)
roll_back b (s, new, failure) = (s, record b { bytes = new }, failure)

module _ {ℓ} {A : Type ℓ} (size : ℕ) (granted : ℕ → Bool) where
  -- The vector's own growth, after the reservation was resized from `old` to `new` bytes.
  unfoldable pub grow_vector : ℕ → ℕ → ℕ → Buffer A → State → Answer A
  unfolding resize roll_back
  grow_vector capacity old new b s =
      if granted capacity
      then (s, record b { capacity = capacity; bytes = new }, ok tt)
      else roll_back b (resize s new old)

  unfoldable pub after_resize : ℕ → Buffer A → State × ℕ × Admitted → Answer A
  unfolding grow_vector
  after_resize capacity b (s, new, ok _) = grow_vector capacity b.bytes new b s
  after_resize capacity b (s, new, failure) = (s, record b { bytes = new }, failure)

  unfoldable pub charge_for : ℕ → Buffer A → State → Option ℕ → Answer A
  unfolding after_resize resize
  charge_for capacity b s none = (s, b, err LanaError.oom)
  charge_for capacity b s (some bytes) = after_resize capacity b (resize s b.bytes bytes)

  unfoldable pub reserve_capacity : ℕ → Buffer A → State → Answer A
  unfolding charge_for bytes_for
  reserve_capacity capacity b s = charge_for capacity b s (bytes_for size capacity b.owner_bytes)

  -- The second attempt of `reserve`, with no more than is required.
  unfoldable pub or_exact : ℕ → ℕ → Answer A → Answer A
  unfolding reserve_capacity
  or_exact capacity required (s, b, err LanaError.oom) =
      if ltb required capacity then reserve_capacity required b s else (s, b, err LanaError.oom)
  or_exact capacity required answer = answer

  unfoldable pub reserve_required : ℕ → Buffer A → State → Answer A
  unfolding or_exact reserve_capacity
  reserve_required required b s =
      let capacity = max required (saturating_mul b.capacity 2) in
      if leb required b.capacity
      then (s, b, ok tt)
      else or_exact capacity required (reserve_capacity capacity b s)

  unfoldable pub reserve_more : ℕ → Buffer A → State → Answer A
  unfolding reserve_required
  reserve_more additional b s =
      if ltb (length b.values + additional) (2 ^ 64)
      then reserve_required (length b.values + additional) b s
      else (s, b, err LanaError.oom)

  unfoldable pub push : A → Buffer A → State → Answer A
  unfolding append reserve_more
  push x b s = append (x ∷ []) (reserve_more 1 b s)

  unfoldable pub extend_from_slice : List A → Buffer A → State → Answer A
  unfolding append reserve_more
  extend_from_slice xs b s = append xs (reserve_more (length xs) b s)

  unfoldable pub truncate : ℕ → Buffer A → Buffer A
  truncate len b = record b { values = take len b.values }

  unfoldable pub clear : Buffer A → Buffer A
  clear b = record b { values = [] }

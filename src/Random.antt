-- ===== src/Random.antt =====
-- vm/rust/lana-vm/src/rng.rs: the PCG32 generator. A `u64` and a `u32` are native numbers.
use Prim.Native.Nat.{bit_and, bit_or, bit_xor}
use lana.Prelude.{ℕ, zero, suc, ◌+◌, ◌-◌, ◌*◌, ◌/◌, ◌%◌, ◌^◌}
pub mod Streams
mod Tests

pub record Rng : Type 0 where
  pub state : ℕ
  pub increment : ℕ

abbrev pub multiplier : ℕ
multiplier = 6364136223846793005

abbrev pub default_increment : ℕ
default_increment = 1442695040888963407 * 2 + 1

unfoldable pub new : Rng
new = record { state = 0; increment = default_increment }

-- The state after a draw.
unfoldable pub next_state : ℕ → ℕ → ℕ
next_state state increment = (state * multiplier % 2 ^ 64 + increment) % 2 ^ 64

-- The value of a draw. A shift to the left of a `u32` loses the high bits.
unfoldable pub output : ℕ → ℕ
output old_state =
    let xor_shifted = bit_xor (old_state / 2 ^ 18) old_state / 2 ^ 27 % 2 ^ 32 in
    let rotation = old_state / 2 ^ 59 in
    let left = bit_and ((2 ^ 32 - rotation) % 2 ^ 32) 31 in
    bit_or (xor_shifted / 2 ^ rotation) (xor_shifted * 2 ^ left % 2 ^ 32)

unfoldable pub random : Rng → Rng × ℕ
unfolding next_state output
random r = (record r { state = next_state r.state r.increment }, output r.state)

unfoldable pub seed : ℕ → Rng → Rng
unfolding random
seed value r =
    let first = random (record { state = 0; increment = default_increment }) in
    (random (record first.0 { state = (first.0.state + value) % 2 ^ 64 })).0

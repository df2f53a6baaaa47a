-- ===== src/Bytecode/Float.antt =====
-- `f64` as the verifier uses it, and `state_make_complex` of
-- vm/rust/lana-bytecode/src/verifier.rs. A float is its 64 bits. The IEEE operations are the
-- machine's: they are the fields of `F64`, and nothing is assumed of them.
use lana.Prelude.{ℕ, Bool, not, ◌&&◌, ◌||◌, if◌then◌else◌, require, Result, ◌>>◌}
use lana.Bytecode.Error.{LanaError}

pub record F64 : Type 0 where
  pub is_finite : ℕ → Bool
  pub lt : ℕ → ℕ → Bool
  pub eq : ℕ → ℕ → Bool
  pub add : ℕ → ℕ → ℕ
  pub mul : ℕ → ℕ → ℕ
  pub div : ℕ → ℕ → ℕ
  pub sqrt : ℕ → ℕ

-- 0.0, 1.0, 1e-12 and -1e-12
abbrev pub zero_bits : ℕ
zero_bits = 0

abbrev pub one_bits : ℕ
one_bits = 0x3ff0000000000000

abbrev pub epsilon_bits : ℕ
epsilon_bits = 0x3d719799812dea11

abbrev pub minus_epsilon_bits : ℕ
minus_epsilon_bits = 0xbd719799812dea11

module _ (fl : F64) where
  open fl use {is_finite, lt, eq, add, mul, div, sqrt}

  -- `p.clamp(0.0, 1.0)`
  clamp_unit : ℕ → ℕ
  clamp_unit p = if lt p zero_bits then zero_bits else if lt one_bits p then one_bits else p

  -- `if x == 0.0 { 0.0 } else { x }`: a negative zero becomes positive.
  unsigned_zero : ℕ → ℕ
  unsigned_zero x = if eq x zero_bits then zero_bits else x

  -- `p == 0.0 || p == 1.0`
  is_pole : ℕ → Bool
  is_pole p = eq p zero_bits || eq p one_bits

  norm_squared : ℕ → ℕ → ℕ
  norm_squared d_re d_im = add (mul d_re d_re) (mul d_im d_im)

  -- The checks after the radius is brought to 1 at most.
  finish : ℕ → ℕ → ℕ → Result LanaError (Unit {0})
  unfolding clamp_unit unsigned_zero is_pole norm_squared
  finish p d_re d_im =
      let re = unsigned_zero (if is_pole p then zero_bits else d_re) in
      let im = unsigned_zero (if is_pole p then zero_bits else d_im) in
      let q = unsigned_zero p in
      let radius_squared = norm_squared re im in
      do
        require (is_finite radius_squared && not (lt one_bits radius_squared))
            LanaError.invalid_state
        require (not (eq q zero_bits) && not (eq q one_bits) || eq re zero_bits && eq im zero_bits)
            LanaError.invalid_state

  unfoldable pub state_make_complex : ℕ → ℕ → ℕ → Result LanaError (Unit {0})
  unfolding clamp_unit norm_squared finish
  state_make_complex p d_re d_im =
      let radius = sqrt (norm_squared d_re d_im) in
      let limit = add one_bits epsilon_bits in
      let shrinks = lt one_bits radius in
      do
        require (is_finite p && (is_finite d_re && is_finite d_im)) LanaError.invalid_state
        require (not (lt p minus_epsilon_bits) && not (lt limit p)) LanaError.invalid_state
        require (is_finite radius && not (lt limit radius)) LanaError.invalid_state
        finish (clamp_unit p) (if shrinks then div d_re radius else d_re)
            (if shrinks then div d_im radius else d_im)

-- ===== src/Random/Tests.antt =====
-- Runs of the generator, and the theorems at inputs that meet their hypotheses.
use lana.Prelude.{◌≡◌, ◌≢◌, refl, arith}
use lana.Random.{Rng, new, random, seed}
use lana.Random.Streams.{draws, seed-ne}

abbrev generator : Rng
generator = seed 42 new

seed-ne_example : (draws 2 (seed 42 new)).state ≢ (draws 2 (seed 43 new)).state
seed-ne_example = seed-ne 2 42 43 new new (omega arith) (omega arith) (λ h. omega (arith, h))

first_value : (random generator).1 ≡ 492690617
unfolding random seed
first_value = refl

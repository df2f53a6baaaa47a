-- ===== src/Bytecode/Verifier/Containment.antt =====
-- Control flow in a chunk that `verify` of vm/rust/lana-bytecode/src/verifier.rs accepts.
use lana.Prelude.{
  ℕ, ◌<◌, ◌≤◌, false, not, ◌&&◌, some, none, List, [], All-map, length, get_elem?, replicate, ◌≡◌,
  ◌⊎◌, inl, inr, ap, ok, >>=-eq-ok, require, require-eq-ok, arith,
}
use lana.Bytecode.Float.{F64}
use lana.Bytecode.Chunk.{Instruction, Function, Chunk}
use lana.Bytecode.Objects
use lana.Bytecode.Objects.Descriptor.{Serde, descriptors}
use lana.Bytecode.Objects.Members.{Descriptors, Owners, names_loop, descriptors_loop}
use lana.Bytecode.Objects.Access.{
  Entry, enumerate, sort_entries, starts_at_zero, neighbours_meet, some_entry_free, regions_loop,
}
use lana.Bytecode.Objects.Declared.{Declared}
use lana.Bytecode.Objects.Regions.{Flow, IsClosed}
use lana.Bytecode.Objects.Entries.{
  Region, sort_entries-Ascending, get_elem?-In, All-sorted, regions_loop-Region,
}
use lana.Bytecode.Verifier.{verify}
use lana.Bytecode.Verifier.Verified.{FunctionFits, verify-Verified}

-- Where control can be, that starts at `start`.
pub data Reach (chunk : Chunk) (start : ℕ) : ℕ → Type 0 where
  here : Reach chunk start start
  step : {ip ip' : ℕ} → Reach chunk start ip → Flow chunk ip ip' → Reach chunk start ip'

Reach-inside :
    {chunk : Chunk} {start ip : ℕ} (end : ℕ)
    → IsClosed chunk start end
    → start < end
    → Reach chunk start ip
    → (start ≤ ip) × (ip < end)
Reach-inside end closed inside here = omega arith
Reach-inside end closed inside (step r flow) =
    let (lo, hi) = Reach-inside end closed inside r in closed _ _ flow lo hi

abbrev sorted : Chunk → List Entry
sorted chunk = sort_entries (enumerate 0 chunk.functions)

-- What the last loop of the v6 verification needs and gives.
verify-regions :
    (sd : Serde) (chunk : Chunk)
    → Objects.verify sd chunk ≡ ok tt
    → (ds : Descriptors) × (owners : Owners) × (neighbours_meet (sorted chunk) ≡ false)
      × (regions_loop chunk ds owners (sorted chunk) ≡ ok tt)
unfolding Objects.verify
verify-regions sd chunk h =
    let (ds, _, h₁) = >>=-eq-ok (descriptors sd chunk) _ h in
    let (names, _, h₂) = >>=-eq-ok (names_loop [] ds) _ h₁ in
    let (owners, _, h₃) =
      >>=-eq-ok (descriptors_loop chunk ds names ds (replicate (length chunk.functions) none)) _
        h₂ in
    let apart = starts_at_zero (sorted chunk) && not (neighbours_meet (sorted chunk)) in
    let (_, distinct, h₄) = >>=-eq-ok (require apart _) _ h₃ in
    let (free, _, h₅) = >>=-eq-ok (some_entry_free chunk.entry owners (sorted chunk)) _ h₄ in
    let (_, _, h₆) = >>=-eq-ok (require free _) _ h₅ in
    let holds = require-eq-ok apart _ distinct in (ds, owners, ground arith, h₆)

module _ (fl : F64) (sd : Serde) (chunk : Chunk) (verified : verify fl sd chunk ≡ ok tt)
    (six : chunk.version ≡ 6) where
  function-Region :
      (k : ℕ) (f : Function)
      → get_elem? chunk.functions k ≡ some f
      → Region chunk (sorted chunk) (k, f)
  function-Region k f found =
      let v = (verify-Verified fl sd chunk).0 verified in
      let (ds, owners, apart, loop) = verify-regions sd chunk (v.objects six) in
      let fit =
        All-sorted (λ g. g.entry < length chunk.code) chunk.functions
          (All-map (FunctionFits chunk) _ (λ g w. omega (arith, w.entry)) chunk.functions
            v.functions) in
      regions_loop-Region chunk ds owners (sorted chunk) (k, f) loop (sort_entries-Ascending _)
        apart fit (get_elem?-In chunk k f found)

  -- Wherever control can go from a function's entry, the object opcodes name registers that the
  -- function declares.
  pub verify-Declared :
      (k : ℕ) (f : Function)
      → get_elem? chunk.functions k ≡ some f
      → (ip : ℕ) (i : Instruction) → Reach chunk f.entry ip
      → get_elem? chunk.code ip ≡ some i
      → Declared i.opcode f.register_count i
  verify-Declared k f found ip i reach at_ip =
      let (end, inside, _, closed, declared, _) = function-Region k f found in
      let (lo, hi) = Reach-inside end closed inside reach in declared ip i lo hi at_ip

  -- In a verified v6 chunk every function has a region of the code from its entry on, and control
  -- that starts at the entry stays in it. Every function of another index starts strictly before
  -- that entry, or at or after the end of the region.
  pub verify-contained :
      (k : ℕ) (f : Function)
      → get_elem? chunk.functions k ≡ some f
      → (end : ℕ) × (f.entry < end)
        × (end ≤ length chunk.code)
        × ((ip : ℕ) → Reach chunk f.entry ip → (f.entry ≤ ip) × (ip < end))
        × ((m : ℕ) (g : Function)
            → get_elem? chunk.functions m ≡ some g
            → (m ≡ k) ⊎ ((g.entry < f.entry) ⊎ (end ≤ g.entry)))
  verify-contained k f found =
      let (end, inside, fits, closed, _, others) = function-Region k f found in
      (
        end,
        inside,
        fits,
        λ ip r. Reach-inside end closed inside r,
        λ m g at_m. elim (others (m, g) (get_elem?-In chunk m g at_m)) [
          | inl same ↦ inl (ap (λ e. e.0) same)
          | inr apart ↦ inr apart
        ],
      )

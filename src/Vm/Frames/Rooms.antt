-- ===== src/Vm/Frames/Rooms.antt =====
-- `compute_max_registers` of vm/rust/lana-vm/src/vm.rs on a chunk that the verifier accepts.
use lana.Prelude.{
  ℕ, ◌+◌, ◌<◌, ◌≤◌, true, List, [], ◌∷◌, length, get_elem?, set, replicate, All, some, min, max,
  ◌≡◌, inl, inr, ok, refl, arith, ap, sym, ◌∙◌, subst, Bool-cases, get_elem?-some, get_elem?-lt,
  get_elem?-set, get_elem?-set_ne, length-replicate, length-set,
}
use mathlib.Core.Option.{some-injective}
use native.Mathlib.Decide.{ℕ_discrete}
use lana.Bytecode.Opcode.{OpCode}
use lana.Bytecode.Float.{F64}
use lana.Bytecode.Chunk.{Instruction, Function, Chunk}
use lana.Bytecode.Check.Operands.{Accepts}
use lana.Bytecode.Objects.Descriptor.{Serde}
use lana.Bytecode.Objects.Access.{enumerate, sort_entries}
use lana.Bytecode.Objects.Entries.{
  In, In-enumerate-get, sort_entries-Ascending, In-sort_entries, All-sort_entries, All-sorted,
}
use lana.Bytecode.Verifier.{verify}
use lana.Bytecode.Verifier.Verified.{FunctionFits, InstructionFits, verify-Verified}
use lana.Vm.Frames.{make_room, suspends, rooms, compute_max_registers}
use lana.Vm.Frames.Regions.{Suffices, Sized}
use lana.Vm.Frames.Sizes.{Placed, Listed, set-Placed, regions-Placed, put-set, All-enumerate-get}

module _ (chunk : Chunk) where
  pub Suffices-le : {n m : ℕ} (ip : ℕ) → n ≤ m → Suffices chunk n ip → Suffices chunk m ip
  unfolding Suffices
  Suffices-le ip le (inl most) = inl (omega arith)
  Suffices-le ip le (inr (start, end, c, lo, hi)) = inr (
    start,
    end,
    record { closed = c.closed; counted = λ at i e l h. omega (arith, c.counted at i e l h) },
    lo,
    hi,
  )

  Sized-max : (f : Function) (n m : ℕ) → m ≤ 256 → Sized chunk f n → Sized chunk f (max n m)
  Sized-max f n m le s = record {
    arguments = omega (arith, s.arguments);
    limit = omega (arith, s.limit);
    suffices = Suffices-le f.entry (omega arith) s.suffices;
    declared = λ six. omega (arith, s.declared six);
  }

  -- What the loops keep: every function has a size.
  pub record Complete (r : List ℕ) : Type 0 where
    pub whole : length r ≡ length chunk.functions
    pub placed : (k : ℕ) (f : Function) → get_elem? chunk.functions k ≡ some f → Placed chunk r k f

  -- No size shrinks.
  abbrev Grows : List ℕ → List ℕ → Type 0
  Grows r out = (k n : ℕ) → get_elem? r k ≡ some n → (m : ℕ) × (get_elem? out k ≡ some m) × (n ≤ m)

  -- The function that an instruction suspends has a register more than it has arguments.
  abbrev pub HasRoom : List ℕ → Instruction → Type 0
  HasRoom r i =
      (f : Function)
      → get_elem? chunk.functions i.b ≡ some f
      → (m : ℕ) × (get_elem? r i.b ≡ some m) × (min (f.arity + 1) 256 ≤ m)

  Grows-HasRoom : (r out : List ℕ) (i : Instruction) → Grows r out → HasRoom r i → HasRoom out i
  Grows-HasRoom r out i more h f e =
      let (n, at_b, le) = h f e in
      let (m, at_b', up) = more i.b n at_b in (m, at_b', omega (arith, le, up))

  set-Grows : (r : List ℕ) (b n m : ℕ) → get_elem? r b ≡ some n → n ≤ m → Grows r (set r b m)
  set-Grows r b n m e le k x at_k = elim (ℕ_discrete k b) [
    | yes same ↦
        let old : n ≡ x = some-injective _ _ (sym e ∙ ap (get_elem? r) (sym same) ∙ at_k) in
        (
          m,
          ap (get_elem? (set r b m)) same ∙ get_elem?-set r b m (get_elem?-lt r b e),
          omega (arith, old),
        )
    | no ne ↦ (x, get_elem?-set_ne r b k m ne ∙ at_k, omega arith)
  ]

  make_room-Complete :
      (i : Instruction) (r : List ℕ)
      → i.b < length chunk.functions
      → Complete r
      → (out : List ℕ) × (make_room chunk i.b r ≡ ok out)
        × Complete out
        × Grows r out
        × HasRoom out i
  unfolding make_room
  make_room-Complete i r small c =
      let b = i.b in
      let (f, found) = get_elem?-some chunk.functions b small in
      let (n, at_b, sized) = c.placed b f found in
      let m = min (f.arity + 1) 256 in
      let fits : b < length r = omega (arith, c.whole) in
      (
        set r b (max n m),
        rw (at_b, found) (put-set r b (max n m) fits),
        record {
          whole = length-set r b (max n m) ∙ c.whole;
          placed = λ k g at_k.
              set-Placed chunk r b (max n m) f fits found (Sized-max f n m (omega arith) sized) k g
                at_k (inr (c.placed k g at_k));
        },
        set-Grows r b n (max n m) at_b (omega arith),
        λ g e.
            let same : f ≡ g = some-injective _ _ (sym found ∙ e) in
            (max n m, get_elem?-set r b (max n m) fits, omega (arith, ap (λ h. h.arity) same)),
      )

module _ (fl : F64) (chunk : Chunk) where
  suspended :
      (op : OpCode) (i : Instruction)
      → Accepts fl op chunk i
      → suspends op ≡ true
      → i.b < length chunk.functions
  unfolding suspends
  suspended op i h s = ground arith

  -- What the loop over the instructions gives.
  abbrev Roomy : List ℕ → List Instruction → Type 0
  Roomy out code = All (λ i. suspends i.opcode ≡ true → HasRoom chunk out i) code

  rooms-Complete :
      (code : List Instruction) (r : List ℕ)
      → All (InstructionFits fl chunk) code
      → Complete chunk r
      → (out : List ℕ) × (rooms chunk code r ≡ ok out)
        × Complete chunk out
        × Grows chunk r out
        × Roomy out code
  unfolding rooms
  rooms-Complete [] r fit c = (r, refl, c, λ k n e. (n, e, omega arith), tt)
  rooms-Complete (i ∷ code) r fit c = elim (Bool-cases (suspends i.opcode)) [
    | inl waits ↦
        let (grown, done, c₁, up, room) =
          make_room-Complete chunk i r (suspended i.opcode i fit.0.accepts waits) c in
        let (out, rest, c₂, up₂, more) = rooms-Complete code grown fit.1 c₁ in
        (
          out,
          rw (waits, done) rest,
          c₂,
          λ k n e.
              let (m, at_m, le) = up k n e in
              let (m', at_m', le') = up₂ k m at_m in (m', at_m', omega (arith, le, le')),
          (λ w. Grows-HasRoom chunk grown out i up₂ room, more),
        )
    | inr goes ↦
        let (out, rest, c₂, up, more) = rooms-Complete code r fit.1 c in
        (out, rw goes rest, c₂, up, (λ w. absurd cc, more))
  ]

  pub compute_max_registers-Complete :
      (sd : Serde)
      → verify fl sd chunk ≡ ok tt
      → (sizes : List ℕ) × (compute_max_registers chunk ≡ ok sizes)
        × Complete chunk sizes
        × Roomy sizes chunk.code
  unfolding compute_max_registers
  compute_max_registers-Complete sd h =
      let v = (verify-Verified fl sd chunk).0 h in
      let fs = chunk.functions in
      let (r, done, len, placed) =
        regions-Placed chunk (sort_entries (enumerate 0 fs)) (replicate (length fs) 0)
          (sort_entries-Ascending _)
          (All-sort_entries (Listed chunk) _
            (All-enumerate-get fs fs 0 (λ j. ap (get_elem? fs) (omega arith))))
          (All-sorted (FunctionFits chunk) fs v.functions) (length-replicate (length fs) 0) in
      let (out, rest, c, _, roomy) = rooms-Complete chunk.code r v.code (record {
        whole = len;
        placed = λ k f at_k. placed k f at_k (
            inl (
              In-sort_entries (k, f) _
                (subst (λ n. In (n, f) (enumerate 0 fs)) (omega arith)
                  (In-enumerate-get fs 0 k f at_k))));
      }) in
      (out, rw done rest, c, roomy)

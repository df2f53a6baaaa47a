-- ===== src/Vm/Frames/Sizes.antt =====
-- The loop over the sorted functions in `compute_max_registers` of vm/rust/lana-vm/src/vm.rs.
use lana.Prelude.{
  ℕ, suc, ◌+◌, ◌<◌, ◌≤◌, List, [], ◌∷◌, length, get_elem?, set, All, All-map, some, ◌≡◌, ◌⊎◌, inl,
  inr, ok, refl, arith, ap, sym, ◌∙◌, subst, get_elem?-lt, length-set, get_elem?-set,
  get_elem?-set_ne, lt→ltb,
}
use mathlib.Core.Option.{some-injective}
use native.Mathlib.Decide.{ℕ_discrete}
use lana.Bytecode.Chunk.{Function, Chunk}
use lana.Bytecode.Objects.Access.{Entry, enumerate, region_end}
use lana.Bytecode.Objects.Entries.{In, Ascending, region_end-le-length}
use lana.Bytecode.Verifier.Verified.{FunctionFits}
use lana.Vm.Frames.{frame_size, put, regions}
use lana.Vm.Frames.Scan.{region, slice-region}
use lana.Vm.Frames.Regions.{Sized, frame_size-Sized}

pub All-enumerate-get :
    (full fs : List Function) (k : ℕ)
    → ((j : ℕ) → get_elem? fs j ≡ get_elem? full (k + j))
    → All (λ e. get_elem? full e.0 ≡ some e.1) (enumerate k fs)
unfolding enumerate
All-enumerate-get full [] k h = tt
All-enumerate-get full (f ∷ fs) k h = (
  sym (h 0 ∙ ap (get_elem? full) (omega arith)),
  All-enumerate-get full fs (suc k) (λ j. h (suc j) ∙ ap (get_elem? full) (omega arith)),
)

pub put-set : (r : List ℕ) (k n : ℕ) → k < length r → put r k n ≡ ok (set r k n)
unfolding put
put-set r k n h = rw (lt→ltb k (length r) h)

module _ (chunk : Chunk) where
  -- Function `k`, which is `f`, has a size that is right for it.
  abbrev pub Placed : List ℕ → ℕ → Function → Type 0
  Placed r k f = (n : ℕ) × (get_elem? r k ≡ some n) × Sized chunk f n

  abbrev pub Listed : Entry → Type 0
  Listed e = get_elem? chunk.functions e.0 ≡ some e.1

  pub set-Placed :
      (r : List ℕ) (index n : ℕ) (g : Function)
      → index < length r
      → Listed (index, g)
      → Sized chunk g n
      → (k : ℕ) (f : Function) → get_elem? chunk.functions k ≡ some f
      → (k ≡ index) ⊎ Placed r k f
      → Placed (set r index n) k f
  set-Placed r index n g small listed sized k f at_k h = elim (ℕ_discrete k index) [
    | yes e ↦
        let same : g ≡ f =
          some-injective _ _ (sym listed ∙ ap (get_elem? chunk.functions) (sym e) ∙ at_k) in
        (
          n,
          ap (get_elem? (set r index n)) e ∙ get_elem?-set r index n small,
          subst (λ h. Sized chunk h n) same sized,
        )
    | no ne ↦ elim h [
      | inl e ↦ absurd (ne e)
      | inr (m, at_m, fine) ↦ (m, get_elem?-set_ne r index k n ne ∙ at_m, fine)
    ]
  ]

  le-region_end :
      (g : Function) (index : ℕ) (rest : List Entry)
      → g.entry < length chunk.code
      → Ascending ((index, g) ∷ rest)
      → g.entry ≤ region_end chunk rest
  unfolding region_end
  le-region_end g index [] fit up = omega arith
  le-region_end g index (_ ∷ _) fit up = up.0.0

  pub regions-Placed :
      (xs : List Entry) (r : List ℕ)
      → Ascending xs
      → All Listed xs
      → All (λ e. FunctionFits chunk e.1) xs
      → length r ≡ length chunk.functions
      → (out : List ℕ) × (regions chunk xs r ≡ ok out)
        × (length out ≡ length chunk.functions)
        × ((k : ℕ) (f : Function)
            → get_elem? chunk.functions k ≡ some f
            → In (k, f) xs ⊎ Placed r k f
            → Placed out k f)
  unfolding regions
  regions-Placed [] r up listed fit len =
      (r, refl, len, λ k f at_k h. elim h [ inl m ↦ absurd m | inr p ↦ p ])
  regions-Placed ((index, g) ∷ rest) r up listed fit len =
      let end = region_end chunk rest in
      let late : end ≤ length chunk.code = region_end-le-length chunk rest (
        All-map (λ e. FunctionFits chunk e.1) (λ e. e.1.entry < length chunk.code)
          (λ e w. omega (arith, w.entry)) rest fit.1) in
      let after : g.entry ≤ end = le-region_end g index rest (omega (arith, fit.0.entry)) up in
      let size = frame_size chunk g end (region chunk.code g.entry end) in
      let sized = frame_size-Sized chunk g end late after fit.0.register_count fit.0.arity in
      let small : index < length r =
        subst (λ n. index < n) (sym len) (get_elem?-lt chunk.functions index listed.0) in
      let (out, done, same, placed) =
        regions-Placed rest (set r index size) up.1 listed.1 fit.1
          (length-set r index size ∙ len) in
      (
        out,
        rw (slice-region chunk.code g.entry end after late, put-set r index size small) done,
        same,
        λ k f at_k h. placed k f at_k (elim h [
          | inl (inr m) ↦ inl m
          | inl (inl e) ↦
              inr (set-Placed r index size g small listed.0 sized k f at_k (inl (ap (λ x. x.0) e)))
          | inr p ↦ inr (set-Placed r index size g small listed.0 sized k f at_k (inr p))
        ]),
      )

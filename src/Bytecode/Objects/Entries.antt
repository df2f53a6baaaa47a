-- ===== src/Bytecode/Objects/Entries.antt =====
-- The functions sorted by entry, and the regions between neighbours.
use lana.Prelude.{
  ℕ, zero, suc, ◌+◌, ◌<◌, ◌≤◌, false, ltb, some, List, [], ◌∷◌, All, length, get_elem?, ◌≡◌, ◌⊎◌,
  inl, inr, refl, ok, >>=-eq-ok, arith, Bool-cases, All-map, subst, ap, sym, ◌∙◌,
}
use mathlib.Core.Option.{some-injective}
use lana.Bytecode.Chunk.{Chunk, Function, Instruction}
use lana.Bytecode.Objects.Members.{Descriptors, Owners}
use lana.Bytecode.Objects.Access.{
  Entry, region_end, insert_entry, sort_entries, enumerate, neighbours_meet, check_region,
  regions_loop,
}
use lana.Bytecode.Objects.Regions.{IsClosed, check_region-IsClosed, check_region-Declared}
use lana.Bytecode.Objects.Declared.{Declared}

abbrev pub In : Entry → List Entry → Type 0
In x [] = ⊥
In x (y ∷ ys) = (x ≡ y) ⊎ In x ys

abbrev pub Ascending : List Entry → Type 0
Ascending [] = Unit
Ascending (x ∷ xs) = All (λ y. x.1.entry ≤ y.1.entry) xs × Ascending xs

All-insert_entry :
    (P : Entry → Type 0) (x : Entry) (ys : List Entry) → P x → All P ys → All P (insert_entry x ys)
unfolding insert_entry
All-insert_entry P x [] px h = (px, tt)
All-insert_entry P x (y ∷ ys) px h = elim (Bool-cases (ltb y.1.entry x.1.entry)) [
  | inl later ↦ rw (later, insert_entry) (h.0, All-insert_entry P x ys px h.1)
  | inr here ↦ rw (here, insert_entry) (px, h)
]

insert_entry-Ascending :
    (x : Entry) (ys : List Entry) → Ascending ys → Ascending (insert_entry x ys)
unfolding insert_entry
insert_entry-Ascending x [] h = (tt, tt)
insert_entry-Ascending x (y ∷ ys) h = elim (Bool-cases (ltb y.1.entry x.1.entry)) [
  | inl later ↦
      rw (later, insert_entry)
        (
          All-insert_entry (λ z. y.1.entry ≤ z.1.entry) x ys (ground arith) h.0,
          insert_entry-Ascending x ys h.1,
        )
  | inr here ↦
      let before : x.1.entry ≤ y.1.entry = ground arith in
      rw (here, insert_entry)
        (
          (
            before,
            All-map (λ z. y.1.entry ≤ z.1.entry) (λ z. x.1.entry ≤ z.1.entry) (λ z le. omega arith)
                ys h.0,
          ),
          h,
        )
]

pub sort_entries-Ascending : (xs : List Entry) → Ascending (sort_entries xs)
unfolding sort_entries
sort_entries-Ascending [] = tt
sort_entries-Ascending (x ∷ xs) =
    insert_entry-Ascending x (sort_entries xs) (sort_entries-Ascending xs)

In-insert_entry : (z x : Entry) (ys : List Entry) → (z ≡ x) ⊎ In z ys → In z (insert_entry x ys)
unfolding insert_entry
In-insert_entry z x [] h = h
In-insert_entry z x (y ∷ ys) h = elim (Bool-cases (ltb y.1.entry x.1.entry)) [
  | inl later ↦
      rw (later, insert_entry)
        (elim h [
          | inl e ↦ inr (In-insert_entry z x ys (inl e))
          | inr (inl e) ↦ inl e
          | inr (inr m) ↦ inr (In-insert_entry z x ys (inr m))
        ])
  | inr here ↦ rw (here, insert_entry) h
]

pub In-sort_entries : (z : Entry) (xs : List Entry) → In z xs → In z (sort_entries xs)
unfolding sort_entries
In-sort_entries z [] h = h
In-sort_entries z (x ∷ xs) (inl e) = In-insert_entry z x (sort_entries xs) (inl e)
In-sort_entries z (x ∷ xs) (inr m) =
    In-insert_entry z x (sort_entries xs) (inr (In-sort_entries z xs m))

pub In-enumerate-get :
    (fs : List Function) (k j : ℕ) (f : Function)
    → get_elem? fs j ≡ some f
    → In (k + j, f) (enumerate k fs)
unfolding enumerate
In-enumerate-get [] k j f e = cc
In-enumerate-get (g ∷ fs) k zero f e =
    inl (ap (λ n. (n, f)) (omega arith) ∙ ap (λ h. (k, h)) (sym (some-injective _ _ e)))
In-enumerate-get (g ∷ fs) k (suc j) f e = inr (
    subst (λ n. In (n, f) (enumerate (suc k) fs)) (omega arith) (In-enumerate-get fs (suc k) j f e))

-- Every function of the chunk is among the sorted entries, with its index.
pub get_elem?-In :
    (chunk : Chunk) (j : ℕ) (f : Function)
    → get_elem? chunk.functions j ≡ some f
    → In (j, f) (sort_entries (enumerate 0 chunk.functions))
get_elem?-In chunk j f e =
    In-sort_entries (j, f) _
      (subst (λ n. In (n, f) (enumerate 0 chunk.functions)) (omega arith)
        (In-enumerate-get chunk.functions 0 j f e))

pub In-All : (P : Entry → Type 0) (x : Entry) (xs : List Entry) → All P xs → In x xs → P x
In-All P x (y ∷ ys) h (inl e) = subst P (sym e) h.0
In-All P x (y ∷ ys) h (inr m) = In-All P x ys h.1 m
In-All P x [] h m = absurd m

region_end-le :
    (chunk : Chunk) (ys : List Entry) (g : Entry)
    → Ascending ys
    → In g ys
    → region_end chunk ys ≤ g.1.entry
unfolding region_end
region_end-le chunk (y ∷ ys) g h (inl e) = rw e (omega arith)
region_end-le chunk (y ∷ ys) g h (inr m) = In-All (λ z. y.1.entry ≤ z.1.entry) g ys h.0 m
region_end-le chunk [] g h m = absurd m

lt-region_end :
    (chunk : Chunk) (y : Entry) (ys : List Entry)
    → y.1.entry < length chunk.code
    → Ascending (y ∷ ys)
    → neighbours_meet (y ∷ ys) ≡ false
    → y.1.entry < region_end chunk ys
unfolding region_end neighbours_meet
lt-region_end chunk y [] h up apart = h
lt-region_end chunk y (z ∷ ys) h up apart = ground arith

pub region_end-le-length :
    (chunk : Chunk) (ys : List Entry)
    → All (λ y. y.1.entry < length chunk.code) ys
    → region_end chunk ys ≤ length chunk.code
unfolding region_end
region_end-le-length chunk [] h = omega arith
region_end-le-length chunk (y ∷ ys) h = omega arith

All-enumerate :
    (P : Function → Type 0) (k : ℕ) (fs : List Function)
    → All P fs
    → All (λ e. P e.1) (enumerate k fs)
unfolding enumerate
All-enumerate P k [] h = tt
All-enumerate P k (f ∷ fs) h = (h.0, All-enumerate P (suc k) fs h.1)

pub All-sort_entries : (P : Entry → Type 0) (xs : List Entry) → All P xs → All P (sort_entries xs)
unfolding sort_entries
All-sort_entries P [] h = tt
All-sort_entries P (x ∷ xs) h =
    All-insert_entry P x (sort_entries xs) h.0 (All-sort_entries P xs h.1)

pub All-sorted :
    (P : Function → Type 0) (fs : List Function)
    → All P fs
    → All (λ e. P e.1) (sort_entries (enumerate 0 fs))
All-sorted P fs h = All-sort_entries (λ e. P e.1) _ (All-enumerate P 0 fs h)

-- The region of a function holds its entry, is closed under the flow of control, its instructions
-- name registers that the function declares, and no other entry of the list lies in it.
abbrev pub Region : Chunk → List Entry → Entry → Type 0
Region chunk fs x =
    (end : ℕ) × (x.1.entry < end)
    × (end ≤ length chunk.code)
    × IsClosed chunk x.1.entry end
    × ((ip : ℕ) (i : Instruction)
        → x.1.entry ≤ ip
        → ip < end
        → get_elem? chunk.code ip ≡ some i
        → Declared i.opcode x.1.register_count i)
    × ((g : Entry) → In g fs → (g ≡ x) ⊎ ((g.1.entry < x.1.entry) ⊎ (end ≤ g.1.entry)))

neighbours_meet-tail :
    (y : Entry) (ys : List Entry) → neighbours_meet (y ∷ ys) ≡ false → neighbours_meet ys ≡ false
unfolding neighbours_meet
neighbours_meet-tail y [] h = refl
neighbours_meet-tail y (z ∷ ys) h = ground arith

-- Sorted entries of which no two neighbours meet are distinct.
lt-In :
    (y x : Entry) (ys : List Entry)
    → Ascending (y ∷ ys)
    → neighbours_meet (y ∷ ys) ≡ false
    → In x ys
    → y.1.entry < x.1.entry
unfolding neighbours_meet
lt-In y x [] up apart m = absurd m
lt-In y x (z ∷ ys) up apart (inl e) = rw e (ground arith)
lt-In y x (z ∷ ys) up apart (inr m) =
    let later = In-All (λ w. z.1.entry ≤ w.1.entry) x ys up.1.0 m in ground arith

module _ (chunk : Chunk) (ds : Descriptors) (owners : Owners) where
  -- What the loop over the sorted functions establishes of each of them.
  pub regions_loop-Region :
      (xs : List Entry) (x : Entry)
      → regions_loop chunk ds owners xs ≡ ok tt
      → Ascending xs
      → neighbours_meet xs ≡ false
      → All (λ y. y.1.entry < length chunk.code) xs
      → In x xs
      → Region chunk xs x
  unfolding regions_loop
  regions_loop-Region [] x h up apart fit m = absurd m
  regions_loop-Region (y ∷ ys) x h up apart fit (inl e) =
      let (_, passed, _) =
        >>=-eq-ok (check_region chunk ds owners y.0 y.1 y.1.entry (region_end chunk ys)) _ h in
      subst (Region chunk (y ∷ ys)) (sym e) (
        region_end chunk ys,
        lt-region_end chunk y ys fit.0 up apart,
        region_end-le-length chunk ys fit.1,
        check_region-IsClosed chunk ds owners y.0 y.1 y.1.entry (region_end chunk ys) passed,
        check_region-Declared chunk ds owners y.0 y.1 y.1.entry (region_end chunk ys) passed,
        λ g m. elim m [
          | inl same ↦ inl same
          | inr later ↦ inr (inr (region_end-le chunk ys g up.1 later))
        ],
      )
  regions_loop-Region (y ∷ ys) x h up apart fit (inr m) =
      let (_, _, rest) =
        >>=-eq-ok (check_region chunk ds owners y.0 y.1 y.1.entry (region_end chunk ys)) _ h in
      let (end, inside, fits, closed, declared, others) =
        regions_loop-Region ys x rest up.1 (neighbours_meet-tail y ys apart) fit.1 m in
      (
        end,
        inside,
        fits,
        closed,
        declared,
        λ g k. elim k [
          | inl same ↦ inr (inl (rw same (lt-In y x ys up apart m)))
          | inr later ↦ others g later
        ],
      )

-- ===== src/Heap/Buffer/Exact.antt =====
-- Proofs on the second attempt of `reserve` of `Buffer` in vm/rust/lana-vm/src/heap.rs, which
-- asks for no more than the capacity that is required.
use lana.Prelude.{
  ℕ, ◌+◌, ◌-◌, ◌*◌, ◌<◌, ◌≤◌, ◌^◌, max, Bool, true, ◌&&◌, ltb, leb, lt→ltb, List, [], ◌∷◌, ok, err,
  panic, length, ◌≡◌, inl, inr, refl, subst, ◌∙◌, arith, Bool-cases,
}
use lana.Heap.State.{
  Admitted, StringEntry, State, kept, collect_strings, credit, charge_kept, charge, saturating_mul,
  resize, resize_to,
}
use lana.Heap.Balance.{total, Fits}
use lana.Heap.History.{charge_iff}
use lana.Heap.Buffer.{
  Buffer, bytes_for, grow_vector, after_resize, charge_for, reserve_capacity, or_exact,
  reserve_required, reserve_more,
}
use lana.Heap.Buffer.Growth.{IsCharged, Grown, reserve_capacity-Grown}

kept-kept : (es : List StringEntry) → total (kept (kept es)) ≡ total (kept es)
unfolding kept
kept-kept [] = refl
kept-kept (e ∷ es) =
    let rest = kept-kept es in
    elim (Bool-cases e.alive) [
      | inl alive ↦ rw alive (omega (arith, rest))
      | inr dead ↦ rw dead rest
    ]

-- The space that the heap can still give is the same in both states.
abbrev SameSpace : State → State → Type 0
SameSpace s s' =
    (total (kept s'.strings) ≡ total (kept s.strings))
    × (s'.cycle_capacity ≡ s.cycle_capacity)
    × (s'.limit ≡ s.limit)

charge_kept-SameSpace : (s : State) (bytes : ℕ) → SameSpace s (charge_kept s bytes).0
unfolding charge_kept credit
charge_kept-SameSpace s bytes = elim (Bool-cases (ltb (s.limit - s.live) bytes)) [
  | inl over ↦ rw over (refl, refl, refl)
  | inr fits ↦ rw fits (refl, refl, refl)
]

charge-SameSpace : (s : State) (bytes : ℕ) → SameSpace s (charge s bytes).0
unfolding charge collect_strings
charge-SameSpace s bytes = elim (Bool-cases (ltb (s.limit - s.live) bytes)) [
  | inl over ↦
      let (strings, cap, lim) = charge_kept-SameSpace (collect_strings s) bytes in
      rw over (strings ∙ kept-kept s.strings, cap, lim)
  | inr fits ↦ rw fits (charge_kept-SameSpace s bytes)
]

resize_to-SameSpace :
    (s s' : State) (old new : ℕ) (answer : Admitted)
    → SameSpace s s'
    → SameSpace s (resize_to old new (s', answer)).0
unfolding resize_to
resize_to-SameSpace s s' old new (ok _) h = h
resize_to-SameSpace s s' old new (err _) h = h
resize_to-SameSpace s s' old new panic h = h

resize-SameSpace : (s : State) (old new : ℕ) → SameSpace s (resize s old new).0
unfolding resize
resize-SameSpace s old new = elim (Bool-cases (ltb old new)) [
  | inl more ↦ rw more (
      resize_to-SameSpace s (charge s (new - old)).0 old new (charge s (new - old)).1
        (charge-SameSpace s (new - old)))
  | inr less ↦ rw less (refl, refl, refl)
]

resize_to-eq-ok :
    (s : State) (old new : ℕ) (answer : Admitted)
    → answer ≡ ok tt
    → (resize_to old new (s, answer)).2 ≡ ok tt
unfolding resize_to
resize_to-eq-ok s old new (ok _) h = refl
resize_to-eq-ok s old new (err _) h = cc
resize_to-eq-ok s old new panic h = cc

-- A reservation can grow to what fits beside everything else.
resize-eq-ok :
    (s : State) (rest old new : ℕ)
    → Fits s (rest + old)
    → total (kept s.strings) + (rest + s.cycle_capacity * 8) + new ≤ s.limit
    → (resize s old new).2 ≡ ok tt
unfolding resize
resize-eq-ok s rest old new w space = elim (Bool-cases (ltb old new)) [
  | inl more ↦
      let grows : old < new = ground arith in
      rw more (
        resize_to-eq-ok (charge s (new - old)).0 old new (charge s (new - old)).1
          ((charge_iff s (new - old) (rest + old) w).1 (omega arith)))
  | inr less ↦ rw less
]

module _ {ℓ} {A : Type ℓ} (size : ℕ) (granted : ℕ → Bool) (gives : (c : ℕ) → granted c ≡ true) where
  after_resize-eq-ok :
      (capacity : ℕ) (b : Buffer A) (s : State) (held : ℕ) (answer : Admitted)
      → answer ≡ ok tt
      → (after_resize size granted capacity b (s, held, answer)).2 ≡ ok tt
  unfolding after_resize grow_vector
  after_resize-eq-ok capacity b s held (ok _) h = rw (gives capacity)
  after_resize-eq-ok capacity b s held (err _) h = cc
  after_resize-eq-ok capacity b s held panic h = cc

  after_resize-state :
      (capacity : ℕ) (b : Buffer A) (s : State) (held : ℕ) (answer : Admitted)
      → (after_resize size granted capacity b (s, held, answer)).0 ≡ s
  unfolding after_resize grow_vector
  after_resize-state capacity b s held (ok _) = rw (gives capacity)
  after_resize-state capacity b s held (err _) = refl
  after_resize-state capacity b s held panic = refl

  reserve_capacity-SameSpace :
      (capacity : ℕ) (b : Buffer A) (s : State)
      → SameSpace s (reserve_capacity size granted capacity b s).0
  unfolding reserve_capacity charge_for bytes_for
  reserve_capacity-SameSpace capacity b s =
      let new = capacity * size + b.owner_bytes in
      let r = resize s b.bytes new in
      elim (Bool-cases (ltb (capacity * size) (2 ^ 64) && ltb new (2 ^ 64))) [
        | inl fits ↦
            rw (fits, after_resize-state capacity b r.0 r.1 r.2) (resize-SameSpace s b.bytes new)
        | inr over ↦ rw over (refl, refl, refl)
      ]

  -- A capacity's bytes are a `usize` and fit beside everything else.
  abbrev pub HasSpace : ℕ → ℕ → Buffer A → State → Type 0
  HasSpace rest capacity b s =
      (capacity * size + b.owner_bytes < 2 ^ 64)
      × (total (kept s.strings) + (rest + s.cycle_capacity * 8) + (capacity * size + b.owner_bytes)
          ≤ s.limit)

  reserve_capacity-eq-ok :
      (rest capacity : ℕ) (b : Buffer A) (s : State)
      → Fits s (rest + b.bytes)
      → HasSpace rest capacity b s
      → (reserve_capacity size granted capacity b s).2 ≡ ok tt
  unfolding reserve_capacity charge_for bytes_for
  reserve_capacity-eq-ok rest capacity b s w (word, space) =
      let new = capacity * size + b.owner_bytes in
      let r = resize s b.bytes new in
      let small = lt→ltb (capacity * size) (2 ^ 64) (omega arith) in
      let fits = lt→ltb new (2 ^ 64) word in
      rw (small, fits)
        (after_resize-eq-ok capacity b r.0 r.1 r.2 (resize-eq-ok s rest b.bytes new w space))

  or_exact-eq-ok :
      (rest required capacity : ℕ) (b : Buffer A) (s s₁ : State) (b₁ : Buffer A) (answer : Admitted)
      → HasSpace rest required b s
      → SameSpace s s₁
      → required ≤ capacity
      → (required ≡ capacity → answer ≡ ok tt)
      → Grown size rest b required (s₁, b₁, answer)
      → (or_exact size granted capacity required (s₁, b₁, answer)).2 ≡ ok tt
  unfolding or_exact
  or_exact-eq-ok rest required capacity b s s₁ b₁ answer space same enough exact
        (w, inl (h, _, _, _)) =
      rw h
  or_exact-eq-ok rest required capacity b s s₁ b₁ answer (word, space) (strings, cap, lim) enough
        exact (w, inr (h, kept_b)) =
      elim (Bool-cases (ltb required capacity)) [
        | inl again ↦
            rw (h, again, kept_b)
              (reserve_capacity-eq-ok rest required b s₁
                (subst (λ x. Fits s₁ (rest + x.bytes)) kept_b w)
                (word, omega (arith, strings, cap, lim)))
        | inr only ↦ let failed = exact (ground arith) in cc
      ]

  -- On balanced books and a charged buffer, where the system allocator gives what it is asked for,
  -- `reserve` succeeds whenever the bytes of the required capacity fit in the limit beside the
  -- strings that are still alive, the other reservations and the cycle registry.
  pub reserve-eq-ok :
      (rest additional : ℕ) (b : Buffer A) (s : State)
      → IsCharged size b
      → Fits s (rest + b.bytes)
      → length b.values + additional < 2 ^ 64
      → HasSpace rest (length b.values + additional) b s
      → (reserve_more size granted additional b s).2 ≡ ok tt
  unfolding reserve_more reserve_required
  reserve-eq-ok rest additional b s c w small space =
      let required = length b.values + additional in
      let capacity = max required (saturating_mul b.capacity 2) in
      let first = reserve_capacity size granted capacity b s in
      elim (Bool-cases (leb required b.capacity)) [
        | inl enough ↦ rw (lt→ltb _ _ small, enough)
        | inr over ↦
            rw (lt→ltb _ _ small, over)
              (or_exact-eq-ok rest required capacity b s first.0 first.1 first.2 space
                (reserve_capacity-SameSpace capacity b s) (omega arith)
                (λ same.
                  reserve_capacity-eq-ok rest capacity b s w
                    (subst (λ n. HasSpace rest n b s) same space))
                (reserve_capacity-Grown size granted rest required capacity b s c (ground arith)
                  (omega arith) w))
      ]

-- ===== src/Heap/Buffer/Growth.antt =====
-- Proofs on `reserve` of `Buffer` in vm/rust/lana-vm/src/heap.rs: its charge and its failures.
use lana.Prelude.{
  ℕ, ◌+◌, ◌-◌, ◌*◌, ◌≤◌, ◌^◌, max, Bool, ◌&&◌, ltb, leb, leb→le, ok, err, panic, length, ◌≡◌, ◌⊎◌,
  inl, inr, refl, ap, subst, ◌∙◌, arith, Bool-cases,
}
use native.Mathlib.Nat.{mul-le-mul_right}
use lana.Bytecode.Error.{LanaError}
use lana.Heap.State.{Admitted, State, charge, charge_kept, saturating_mul, resize, resize_to}
use lana.Heap.Balance.{Fits, resize-Fits}
use lana.Heap.Buffer.{
  Buffer, Answer, bytes_for, roll_back, grow_vector, after_resize, charge_for, reserve_capacity,
  or_exact, reserve_required, reserve_more,
}

-- A result is a success or the error `Oom`.
abbrev pub IsOkOrOom : Admitted → Type 0
IsOkOrOom r = (r ≡ ok tt) ⊎ (r ≡ err LanaError.oom)

charge_cases : (s : State) (bytes : ℕ) → IsOkOrOom (charge s bytes).1
unfolding charge charge_kept
charge_cases s bytes = ground arith

-- A reservation has its new size or, out of memory, its old one.
abbrev Resized : ℕ → ℕ → State × ℕ × Admitted → Type 0
Resized old new (s, held, answer) =
    ((answer ≡ ok tt) × (held ≡ new)) ⊎ ((answer ≡ err LanaError.oom) × (held ≡ old))

resize_to_cases :
    (old new : ℕ) (s : State) (answer : Admitted)
    → IsOkOrOom answer
    → Resized old new (resize_to old new (s, answer))
unfolding resize_to
resize_to_cases old new s (ok _) h = inl (refl, refl)
resize_to_cases old new s (err e) (inl h) = cc
resize_to_cases old new s (err e) (inr h) = inr (h, refl)
resize_to_cases old new s panic (inl h) = cc
resize_to_cases old new s panic (inr h) = cc

resize_cases : (s : State) (old new : ℕ) → Resized old new (resize s old new)
unfolding resize
resize_cases s old new = elim (Bool-cases (ltb old new)) [
  | inl more ↦ rw more (
      resize_to_cases old new (charge s (new - old)).0 (charge s (new - old)).1
        (charge_cases s (new - old)))
  | inr less ↦ rw less (inl (refl, refl))
]

resize-shrink : (s : State) (old new : ℕ) → new ≤ old → (resize s old new).2 ≡ ok tt
unfolding resize
resize-shrink s old new h = ground arith

module _ {ℓ} {A : Type ℓ} (size : ℕ) where
  -- The contents fit the capacity, and the reservation is the capacity's and the owner's bytes.
  pub record IsCharged (b : Buffer A) : Type 0 where
    pub room : length b.values ≤ b.capacity
    pub charged : b.bytes ≡ b.capacity * size + b.owner_bytes

  -- More capacity takes at least the bytes of less.
  pub larger_bytes :
      (b : Buffer A) (capacity : ℕ)
      → IsCharged b
      → b.capacity ≤ capacity
      → b.bytes ≤ capacity * size + b.owner_bytes
  larger_bytes b capacity c more =
      let scaled = mul-le-mul_right size more in omega (arith, c.charged, scaled)

  -- With `rest` bytes reserved by others, the books balance after a call on `b`, which has made
  -- the capacity at least `required`, or else has left the buffer as it was.
  abbrev pub Grown : ℕ → Buffer A → ℕ → Answer A → Type ℓ
  Grown rest b required (s', b', answer) =
      Fits s' (rest + b'.bytes)
      × (((answer ≡ ok tt) × IsCharged b' × (b'.values ≡ b.values) × (required ≤ b'.capacity))
          ⊎ ((answer ≡ err LanaError.oom) × (b' ≡ b)))

  roll_back-Grown :
      (rest required old : ℕ) (b : Buffer A) (s : State) (held : ℕ) (answer : Admitted)
      → answer ≡ ok tt
      → held ≡ b.bytes
      → Fits s (rest + held)
      → Grown rest b required (roll_back b (s, held, answer))
  unfolding roll_back
  roll_back-Grown rest required old b s held (ok _) h e w =
      (w, inr (refl, ap (λ n. record b { bytes = n }) e))
  roll_back-Grown rest required old b s held (err _) h e w = cc
  roll_back-Grown rest required old b s held panic h e w = cc

  module _ (granted : ℕ → Bool) where
    grow_vector-Grown :
        (rest required capacity new : ℕ) (b : Buffer A) (s : State)
        → IsCharged b
        → b.capacity ≤ capacity
        → required ≤ capacity
        → new ≡ capacity * size + b.owner_bytes
        → b.bytes ≤ new
        → Fits s (rest + new)
        → Grown rest b required (grow_vector size granted capacity b.bytes new b s)
    unfolding grow_vector
    grow_vector-Grown rest required capacity new b s c more enough e larger w =
        elim (Bool-cases (granted capacity)) [
          | inl given ↦
              rw given
                (w, inl (refl, record { room = omega (arith, c.room); charged = e }, refl, enough))
          | inr refused ↦ rw refused (
              let back = resize s new b.bytes in
              let shrunk = resize-shrink s new b.bytes larger in
              let held : (resize s new b.bytes).1 ≡ b.bytes = elim (resize_cases s new b.bytes) [
                | inl (_, held) ↦ held
                | inr (failed, _) ↦ cc
              ] in
              roll_back-Grown rest required b.bytes b back.0 back.1 back.2 shrunk held
                (resize-Fits s new b.bytes rest w))
        ]

    after_resize-Grown :
        (rest required capacity new : ℕ) (b : Buffer A) (s : State) (held : ℕ) (answer : Admitted)
        → IsCharged b
        → b.capacity ≤ capacity
        → required ≤ capacity
        → new ≡ capacity * size + b.owner_bytes
        → b.bytes ≤ new
        → Resized b.bytes new (s, held, answer)
        → Fits s (rest + held)
        → Grown rest b required (after_resize size granted capacity b (s, held, answer))
    unfolding after_resize
    after_resize-Grown rest required capacity new b s held (ok _) c more enough e larger
          (inl (_, h)) w =
        grow_vector-Grown rest required capacity held b s c more enough (h ∙ e) (omega (arith, h)) w
    after_resize-Grown rest required capacity new b s held (ok _) c more enough e larger
          (inr (h, _)) w =
        cc
    after_resize-Grown rest required capacity new b s held (err _) c more enough e larger
          (inl (h, _)) w =
        cc
    after_resize-Grown rest required capacity new b s held (err _) c more enough e larger
          (inr (h, same)) w =
        (w, inr (h, ap (λ n. record b { bytes = n }) same))
    after_resize-Grown rest required capacity new b s held panic c more enough e larger (inl (h, _))
          w =
        cc
    after_resize-Grown rest required capacity new b s held panic c more enough e larger (inr (h, _))
          w =
        cc

    pub reserve_capacity-Grown :
        (rest required capacity : ℕ) (b : Buffer A) (s : State)
        → IsCharged b
        → b.capacity ≤ capacity
        → required ≤ capacity
        → Fits s (rest + b.bytes)
        → Grown rest b required (reserve_capacity size granted capacity b s)
    unfolding reserve_capacity charge_for bytes_for
    reserve_capacity-Grown rest required capacity b s c more enough w =
        let new = capacity * size + b.owner_bytes in
        let larger = larger_bytes b capacity c more in
        elim (Bool-cases (ltb (capacity * size) (2 ^ 64) && ltb new (2 ^ 64))) [
          | inl fits ↦ rw fits (
              let r = resize s b.bytes new in
              after_resize-Grown rest required capacity new b r.0 r.1 r.2 c more enough refl larger
                (resize_cases s b.bytes new) (resize-Fits s b.bytes new rest w))
          | inr over ↦ rw over (w, inr (refl, refl))
        ]

    or_exact-Grown :
        (rest required capacity : ℕ) (b : Buffer A) (answer : Answer A)
        → IsCharged b
        → b.capacity ≤ required
        → Grown rest b required answer
        → Grown rest b required (or_exact size granted capacity required answer)
    unfolding or_exact
    or_exact-Grown rest required capacity b (s, b', ok _) c less g = g
    or_exact-Grown rest required capacity b (s, b', err LanaError.oom) c less
          (w, inl (h, _, _, _)) =
        cc
    or_exact-Grown rest required capacity b (s, b', err LanaError.oom) c less (w, inr (h, same)) =
        elim (Bool-cases (ltb required capacity)) [
          | inl again ↦
              rw (again, same)
                (reserve_capacity-Grown rest required required b s c less (omega arith)
                  (subst (λ x. Fits s (rest + x.bytes)) same w))
          | inr only ↦ rw only (w, inr (h, same))
        ]
    or_exact-Grown rest required capacity b (s, b', err _) c less g = g
    or_exact-Grown rest required capacity b (s, b', panic) c less g = g

    reserve_required-Grown :
        (rest required : ℕ) (b : Buffer A) (s : State)
        → IsCharged b
        → Fits s (rest + b.bytes)
        → Grown rest b required (reserve_required size granted required b s)
    unfolding reserve_required
    reserve_required-Grown rest required b s c w = elim (Bool-cases (leb required b.capacity)) [
      | inl enough ↦ rw enough (w, inl (refl, c, refl, leb→le _ _ enough))
      | inr over ↦
          let more : b.capacity ≤ required = ground arith in
          let capacity = max required (saturating_mul b.capacity 2) in
          rw over (
            or_exact-Grown rest required capacity b (reserve_capacity size granted capacity b s) c
              more
              (reserve_capacity-Grown rest required capacity b s c (omega arith) (omega arith) w))
    ]

    pub reserve_more-Grown :
        (rest additional : ℕ) (b : Buffer A) (s : State)
        → IsCharged b
        → Fits s (rest + b.bytes)
        → Grown rest b (length b.values + additional) (reserve_more size granted additional b s)
    unfolding reserve_more
    reserve_more-Grown rest additional b s c w =
        elim (Bool-cases (ltb (length b.values + additional) (2 ^ 64))) [
          | inl small ↦
              rw small (reserve_required-Grown rest (length b.values + additional) b s c w)
          | inr large ↦ rw large (w, inr (refl, refl))
        ]

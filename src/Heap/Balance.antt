-- ===== src/Heap/Balance.antt =====
-- The books of the heap of vm/rust/lana-vm/src/heap.rs: live bytes against the bytes of the
-- strings, of the reservations and of the cycle registry.
use lana.Prelude.{
  ℕ, ◌+◌, ◌-◌, ◌*◌, ◌<◌, ◌≤◌, ◌^◌, ltb, List, [], ◌∷◌, ok, err, panic, length, ◌≡◌, arith, subst,
  Bool-cases, inl, inr,
}
use lana.Heap.State.{
  Admitted, add_usize, sub_usize, StringEntry, State, kept, live_after, collect_strings, credit,
  charge_kept, charge, resize_to, resize, release, set_limit,
}

abbrev pub total : List StringEntry → ℕ
total [] = 0
total (e ∷ es) = e.bytes + total es

-- `held` is what the reservations hold together.
pub record Fits (s : State) (held : ℕ) : Type 0 where
  pub balance : s.live ≡ total s.strings + (held + s.cycle_capacity * 8)
  pub within : s.live ≤ s.limit
  pub recorded : s.live ≤ s.peak
  pub word : s.limit < 2 ^ 64
  pub room : length s.cycles ≤ s.cycle_capacity

-- The bytes that an operation with this outcome has added.
abbrev pub paid : ℕ → Admitted → ℕ
paid bytes (ok _) = bytes
paid bytes (err _) = 0
paid bytes panic = 0

live_after_lem :
    (es : List StringEntry) (live x : ℕ)
    → live < 2 ^ 64
    → live ≡ total es + x
    → live_after es live ≡ total (kept es) + x
unfolding live_after kept
live_after_lem [] live x small h = h
live_after_lem (e ∷ es) live x small h = elim (Bool-cases e.alive) [
  | inl alive ↦
      let later = live_after_lem es live (e.bytes + x) small (omega arith) in
      rw alive (omega (arith, later))
  | inr dead ↦
      let later = live_after_lem es (sub_usize live e.bytes) x (omega arith) (omega arith) in
      rw dead (omega (arith, later))
]

pub total-kept : (es : List StringEntry) → total (kept es) ≤ total es
unfolding kept
total-kept [] = omega arith
total-kept (e ∷ es) = let rest = total-kept es in ground (arith, rest)

pub collect_strings-Fits : (s : State) {held : ℕ} → Fits s held → Fits (collect_strings s) held
unfolding collect_strings
collect_strings-Fits s {held = held} w =
    let balance =
      live_after_lem s.strings s.live (held + s.cycle_capacity * 8)
        (omega (arith, w.within, w.word)) w.balance in
    let less = total-kept s.strings in
    let whole = w.balance in
    record {
      balance = balance;
      within = omega (arith, w.within, balance, less, whole);
      recorded = omega (arith, w.recorded, balance, less, whole);
      word = w.word;
      room = w.room;
    }

charge_kept-Fits :
    (s : State) (bytes : ℕ) {held : ℕ}
    → Fits s held
    → Fits (charge_kept s bytes).0 (held + paid bytes (charge_kept s bytes).1)
unfolding charge_kept credit
charge_kept-Fits s bytes {held = held} w = elim (Bool-cases (ltb (s.limit - s.live) bytes)) [
  | inl over ↦ rw over (record {
    balance = omega (arith, w.balance);
    within = w.within;
    recorded = w.recorded;
    word = w.word;
    room = w.room;
  })
  | inr fits ↦
      let small : s.live + bytes ≤ s.limit = ground (arith, w.within) in
      let sum : add_usize s.live bytes ≡ s.live + bytes = omega (arith, w.word) in
      rw fits (record {
        balance = omega (arith, w.balance, sum);
        within = omega (arith, sum);
        recorded = omega arith;
        word = w.word;
        room = w.room;
      })
]

pub charge-Fits :
    (s : State) (bytes : ℕ) {held : ℕ}
    → Fits s held
    → Fits (charge s bytes).0 (held + paid bytes (charge s bytes).1)
unfolding charge
charge-Fits s bytes w = elim (Bool-cases (ltb (s.limit - s.live) bytes)) [
  | inl over ↦ rw over (charge_kept-Fits (collect_strings s) bytes (collect_strings-Fits s w))
  | inr fits ↦ rw fits (charge_kept-Fits s bytes w)
]

pub release-Fits :
    (s : State) {held : ℕ} (bytes : ℕ) → Fits s (held + bytes) → Fits (release s bytes) held
unfolding release
release-Fits s bytes w =
    let whole = w.balance in
    let less : sub_usize s.live bytes ≡ s.live - bytes = omega (arith, w.within, w.word, whole) in
    record {
      balance = omega (arith, less, whole);
      within = omega (arith, less, w.within);
      recorded = omega (arith, less, w.recorded);
      word = w.word;
      room = w.room;
    }

pub Fits-held : (s : State) (held held' : ℕ) → held ≡ held' → Fits s held → Fits s held'
Fits-held s held held' e w = subst (Fits s) e w

resize_to-Fits :
    (s : State) (held bytes rest : ℕ) (answer : Admitted)
    → held < bytes
    → Fits s ((rest + held) + paid (bytes - held) answer)
    → Fits (resize_to held bytes (s, answer)).0 (rest + (resize_to held bytes (s, answer)).1)
unfolding resize_to
resize_to-Fits s held bytes rest (ok _) more w = Fits-held s _ _ (omega arith) w
resize_to-Fits s held bytes rest (err _) more w = Fits-held s _ _ (omega arith) w
resize_to-Fits s held bytes rest panic more w = Fits-held s _ _ (omega arith) w

-- The reservation's new size takes the place of its old one.
pub resize-Fits :
    (s : State) (held bytes rest : ℕ)
    → Fits s (rest + held)
    → Fits (resize s held bytes).0 (rest + (resize s held bytes).1)
unfolding resize release
resize-Fits s held bytes rest w = elim (Bool-cases (ltb held bytes)) [
  | inl more ↦ rw more (
      resize_to-Fits (charge s (bytes - held)).0 held bytes rest (charge s (bytes - held)).1
        (ground arith) (charge-Fits s (bytes - held) w))
  | inr less ↦
      let enough : bytes ≤ held = ground arith in
      rw less (
        release-Fits s (held - bytes)
          (Fits-held s (rest + held) (rest + bytes + (held - bytes)) (omega arith) w))
]

pub set_limit-Fits :
    (s : State) (limit : ℕ) {held : ℕ}
    → limit < 2 ^ 64
    → Fits s held
    → Fits (set_limit s limit).0 held
unfolding set_limit
set_limit-Fits s limit small w =
    let w₁ = collect_strings-Fits s w in
    elim (Bool-cases (ltb limit (collect_strings s).live)) [
      | inl over ↦ rw over w₁
      | inr fits ↦ rw fits (record {
        balance = w₁.balance;
        within = ground arith;
        recorded = w₁.recorded;
        word = small;
        room = w₁.room;
      })
    ]

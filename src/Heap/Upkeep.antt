-- ===== src/Heap/Upkeep.antt =====
-- Proofs on the strings and the cycle registry of vm/rust/lana-vm/src/heap.rs: their part of the
-- books of the heap.
use lana.Prelude.{
  ℕ, ◌+◌, ◌-◌, ◌*◌, ◌%◌, ◌≤◌, ◌^◌, Bool, true, false, ltb, ◌==◌, List, [], ◌∷◌, ◌++◌, ok, err,
  panic, length, All, ◌≡◌, refl, arith, Bool-cases, inl, inr,
}
use lana.Heap.State.{
  Admitted, sub_usize, StringEntry, Slot, State, kept, collect_strings, credit, charge_kept, charge,
  resize, resize_to, reserve,
}
use lana.Heap.Balance.{
  total, Fits, Fits-held, paid, collect_strings-Fits, charge-Fits, release-Fits,
}
use lana.Heap.Registry.{
  without, insert, adopt_string, string_of, string, forget, drop_string, weak_size, live_slots,
  give_back, give_back_if_empty, prune_cycles, grown_capacity, grant, grow, is_full, make_room,
  bury,
}

-- No entry has the address.
abbrev pub Fresh : ℕ → List StringEntry → Type 0
Fresh key es = All (λ e. (e.key == key) ≡ false) es

Fresh-kept : (key : ℕ) (es : List StringEntry) → Fresh key es → Fresh key (kept es)
unfolding kept
Fresh-kept key [] f = f
Fresh-kept key (e ∷ es) (f, fs) = elim (Bool-cases e.alive) [
  | inl alive ↦ rw alive (f, Fresh-kept key es fs)
  | inr dead ↦ rw dead (Fresh-kept key es fs)
]

charge_kept-Fresh :
    (key : ℕ) (s : State) (bytes : ℕ)
    → Fresh key s.strings
    → Fresh key (charge_kept s bytes).0.strings
unfolding charge_kept credit
charge_kept-Fresh key s bytes f = elim (Bool-cases (ltb (s.limit - s.live) bytes)) [
  | inl over ↦ rw over f
  | inr fits ↦ rw fits f
]

charge-Fresh :
    (key : ℕ) (s : State) (bytes : ℕ) → Fresh key s.strings → Fresh key (charge s bytes).0.strings
unfolding charge collect_strings
charge-Fresh key s bytes f = elim (Bool-cases (ltb (s.limit - s.live) bytes)) [
  | inl over ↦
      rw over (charge_kept-Fresh key (collect_strings s) bytes (Fresh-kept key s.strings f))
  | inr fits ↦ rw fits (charge_kept-Fresh key s bytes f)
]

total-without : (key : ℕ) (es : List StringEntry) → Fresh key es → total (without key es) ≡ total es
unfolding without
total-without key [] f = refl
total-without key (e ∷ es) (f, fs) =
    let rest = total-without key es fs in rw f (omega (arith, rest))

total-forget : (key : ℕ) (es : List StringEntry) → total (forget key es) ≡ total es
unfolding forget
total-forget key [] = refl
total-forget key (e ∷ es) = let rest = total-forget key es in omega (arith, rest)

length-live_slots : (cs : List Slot) → length (live_slots cs) ≤ length cs
unfolding live_slots
length-live_slots [] = omega arith
length-live_slots (c ∷ cs) = let rest = length-live_slots cs in ground (arith, rest)

pub length-bury : (id : ℕ) (cs : List Slot) → length (bury id cs) ≡ length cs
unfolding bury
length-bury id [] = refl
length-bury id (c ∷ cs) = let rest = length-bury id cs in omega (arith, rest)

pub length-snoc : (cs : List Slot) (c : Slot) → length (cs ++ (c ∷ [])) ≡ length cs + 1
length-snoc [] c = refl
length-snoc (d ∷ cs) c = let rest = length-snoc cs c in omega (arith, rest)

insert-Fits :
    (key bytes : ℕ) (s : State) {held : ℕ}
    → Fresh key s.strings
    → Fits s (held + bytes)
    → Fits (insert key bytes s) held
unfolding insert
insert-Fits key bytes s f w = record {
  balance = omega (arith, w.balance, total-without key s.strings f);
  within = w.within;
  recorded = w.recorded;
  word = w.word;
  room = w.room;
}

pub drop_string-Fits :
    (key : ℕ) (s : State) {held : ℕ} → Fits s held → Fits (drop_string key s) held
unfolding drop_string
drop_string-Fits key s w = record {
  balance = omega (arith, w.balance, total-forget key s.strings);
  within = w.within;
  recorded = w.recorded;
  word = w.word;
  room = w.room;
}

pub adopt_string-Fits :
    (key bytes : ℕ) (granted : Bool) (s : State) {held : ℕ}
    → Fresh key s.strings
    → Fits s (held + bytes)
    → Fits (adopt_string key bytes granted s).0 held
unfolding adopt_string collect_strings
adopt_string-Fits key bytes true s f w = elim (Bool-cases (s.allocations % 256 == 0)) [
  | inl sweep ↦ rw sweep (
      insert-Fits key bytes (collect_strings s) (Fresh-kept key s.strings f)
        (collect_strings-Fits s w))
  | inr skip ↦ rw skip (insert-Fits key bytes s f w)
]
adopt_string-Fits key bytes false s f w = elim (Bool-cases (s.allocations % 256 == 0)) [
  | inl sweep ↦ rw sweep (release-Fits (collect_strings s) bytes (collect_strings-Fits s w))
  | inr skip ↦ rw skip (release-Fits s bytes w)
]

string_of-Fits :
    (key bytes held : ℕ) (granted : Bool) (s : State) (answer : Admitted)
    → Fresh key s.strings
    → Fits s (held + paid bytes answer)
    → Fits (string_of key bytes granted (resize_to 0 bytes (s, answer))).0 held
unfolding string_of resize_to
string_of-Fits key bytes held granted s (ok _) f w = adopt_string-Fits key bytes granted s f w
string_of-Fits key bytes held granted s (err _) f w = Fits-held s _ _ (omega arith) w
string_of-Fits key bytes held granted s panic f w = Fits-held s _ _ (omega arith) w

pub string-Fits :
    (key len : ℕ) (granted : Bool) (s : State) (held : ℕ)
    → Fresh key s.strings
    → Fits s held
    → Fits (string key len granted s).0 held
unfolding string reserve resize
string-Fits key len granted s held f w = elim (Bool-cases (ltb (len + 1) (2 ^ 64))) [
  | inl small ↦
      let some_bytes : ltb 0 (len + 1) ≡ true = ground arith in
      let whole : len + 1 - 0 ≡ len + 1 = omega arith in
      rw (small, some_bytes, whole)
        (string_of-Fits key (len + 1) held granted (charge s (len + 1)).0 (charge s (len + 1)).1
          (charge-Fresh key s (len + 1) f) (charge-Fits s (len + 1) w))
  | inr large ↦ rw large w
]

pub give_back-Fits : (s : State) {held : ℕ} → Fits s held → Fits (give_back s) held
unfolding give_back
give_back-Fits s w =
    let whole = w.balance in
    let less : sub_usize s.live (s.cycle_capacity * weak_size) ≡ s.live - s.cycle_capacity * 8 =
      omega (arith, w.within, w.word, whole) in
    record {
      balance = omega (arith, less, whole);
      within = omega (arith, less, w.within);
      recorded = omega (arith, less, w.recorded);
      word = w.word;
      room = omega arith;
    }

pub give_back_if_empty-Fits :
    (s : State) {held : ℕ} → Fits s held → Fits (give_back_if_empty s) held
unfolding give_back_if_empty
give_back_if_empty-Fits s w = elim (Bool-cases (length s.cycles == 0)) [
  | inl empty ↦ rw empty (give_back-Fits s w)
  | inr used ↦ rw used w
]

pub prune_cycles-Fits : (s : State) {held : ℕ} → Fits s held → Fits (prune_cycles s) held
unfolding prune_cycles
prune_cycles-Fits s w =
    give_back_if_empty-Fits (record s { cycles = live_slots s.cycles })
      (record {
        balance = w.balance;
        within = w.within;
        recorded = w.recorded;
        word = w.word;
        room = omega (arith, length-live_slots s.cycles, w.room);
      })

pub charge_capacity : (s : State) (bytes : ℕ) → (charge s bytes).0.cycle_capacity ≡ s.cycle_capacity
unfolding charge charge_kept credit collect_strings
charge_capacity s bytes = ground arith

grant-Fits :
    (granted : Bool) (capacity bytes held : ℕ) (s : State) (answer : Admitted)
    → capacity * 8 ≡ s.cycle_capacity * 8 + bytes
    → Fits s (held + paid bytes answer)
    → Fits (grant granted capacity bytes (s, answer)).0 held
unfolding grant
grant-Fits true capacity bytes held s (ok _) e w = record {
  balance = omega (arith, w.balance);
  within = w.within;
  recorded = w.recorded;
  word = w.word;
  room = omega (arith, w.room);
}
grant-Fits false capacity bytes held s (ok _) e w = release-Fits s bytes w
grant-Fits granted capacity bytes held s (err _) e w = Fits-held s _ _ (omega arith) w
grant-Fits granted capacity bytes held s panic e w = Fits-held s _ _ (omega arith) w

charge-growth :
    (s : State) {held : ℕ}
    → length s.cycles ≡ s.cycle_capacity
    → Fits s held
    → grown_capacity s.cycle_capacity * 8
      ≡ (charge s
            ((grown_capacity s.cycle_capacity - length s.cycles) * weak_size)).0.cycle_capacity
          * 8
        + (grown_capacity s.cycle_capacity - length s.cycles) * weak_size
charge-growth s full w =
    let same =
      charge_capacity s ((grown_capacity s.cycle_capacity - length s.cycles) * weak_size) in
    omega (arith, same, w.balance, w.within, w.word)

grow-Fits :
    (granted : Bool) (s : State) {held : ℕ}
    → length s.cycles ≡ s.cycle_capacity
    → Fits s held
    → Fits (grow granted s).0 held
unfolding grow
grow-Fits granted s {held = held} full w =
    let capacity = grown_capacity s.cycle_capacity in
    let bytes = (capacity - length s.cycles) * weak_size in
    elim (Bool-cases (ltb bytes (2 ^ 64))) [
      | inl small ↦ rw small (
          grant-Fits granted capacity bytes held (charge s bytes).0 (charge s bytes).1
            (charge-growth s full w) (charge-Fits s bytes w))
      | inr large ↦ rw large w
    ]

pub make_room-Fits :
    (granted : Bool) (s : State) {held : ℕ} → Fits s held → Fits (make_room granted s).0 held
unfolding make_room is_full
make_room-Fits granted s w = elim (Bool-cases (length s.cycles == s.cycle_capacity)) [
  | inl full ↦
      let w₁ = prune_cycles-Fits s w in
      elim (Bool-cases (length (prune_cycles s).cycles == (prune_cycles s).cycle_capacity)) [
        | inl still ↦ rw (full, still) (grow-Fits granted (prune_cycles s) (ground arith) w₁)
        | inr freed ↦ rw (full, freed) w₁
      ]
  | inr room ↦ rw room w
]

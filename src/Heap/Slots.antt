-- ===== src/Heap/Slots.antt =====
-- Proofs on the cycle slots of vm/rust/lana-vm/src/heap.rs: their registration and their end.
use lana.Prelude.{
  ℕ, ◌+◌, ◌-◌, ◌*◌, ◌<◌, ◌^◌, Bool, true, false, not, ◌&&◌, ◌||◌, ltb, ◌==◌, ok, err, panic, length,
  ◌≡◌, refl, arith, Bool-cases, inl, inr,
}
use lana.Bytecode.Error.{LanaError}
use lana.Heap.State.{
  Admitted, sub_usize, State, credit, charge_kept, charge, collect_strings, resize, resize_to,
  reserve,
}
use lana.Heap.Balance.{Fits, Fits-held, paid, charge-Fits, release-Fits}
use lana.Heap.Registry.{
  weak_size, give_back, prune_cycles, grown_capacity, grant, grow, is_full, make_room, register,
  register_in, slot_of, cycle_slot, bury, drop_slot, settle, finish_cycle_slice, finish_cycles,
  defer_cycles,
}
use lana.Heap.Upkeep.{
  make_room-Fits, prune_cycles-Fits, give_back-Fits, give_back_if_empty-Fits, length-bury,
  length-snoc,
}

charge_cycles : (s : State) (bytes : ℕ) → (charge s bytes).0.cycles ≡ s.cycles
unfolding charge charge_kept credit collect_strings
charge_cycles s bytes = ground arith

-- The registry has a place for one more slot.
abbrev HasRoom : State → Type 0
HasRoom s = length s.cycles < s.cycle_capacity

grant-HasRoom :
    (granted : Bool) (capacity bytes : ℕ) (s : State) (answer : Admitted)
    → length s.cycles < capacity
    → (grant granted capacity bytes (s, answer)).1 ≡ ok tt
    → HasRoom (grant granted capacity bytes (s, answer)).0
unfolding grant
grant-HasRoom true capacity bytes s (ok _) more h = more
grant-HasRoom false capacity bytes s (ok _) more h = cc
grant-HasRoom granted capacity bytes s (err _) more h = cc
grant-HasRoom granted capacity bytes s panic more h = cc

grow-HasRoom :
    (granted : Bool) (s : State) {held : ℕ}
    → Fits s held
    → length s.cycles ≡ s.cycle_capacity
    → (grow granted s).1 ≡ ok tt
    → HasRoom (grow granted s).0
unfolding grow
grow-HasRoom granted s w full h =
    let capacity = grown_capacity s.cycle_capacity in
    let bytes = (capacity - length s.cycles) * weak_size in
    let same = charge_cycles s bytes in
    elim (Bool-cases (ltb bytes (2 ^ 64))) [
      | inl small ↦ rw small (
          grant-HasRoom granted capacity bytes (charge s bytes).0 (charge s bytes).1
            (rw same (omega (arith, full, w.balance, w.within, w.word))) (rw small at h))
      | inr large ↦ let failed : err LanaError.oom ≡ ok tt = rw large at h in cc
    ]

make_room-HasRoom :
    (granted : Bool) (s : State) {held : ℕ}
    → Fits s held
    → (make_room granted s).1 ≡ ok tt
    → HasRoom (make_room granted s).0
unfolding make_room is_full
make_room-HasRoom granted s w h = elim (Bool-cases (length s.cycles == s.cycle_capacity)) [
  | inl full ↦
      let w₁ = prune_cycles-Fits s w in
      elim (Bool-cases (length (prune_cycles s).cycles == (prune_cycles s).cycle_capacity)) [
        | inl still ↦
            rw (full, still)
              (grow-HasRoom granted (prune_cycles s) w₁ (ground arith) (rw (full, still) at h))
        | inr freed ↦ rw (full, freed) (ground (arith, w₁.room))
      ]
  | inr room ↦ rw room (ground (arith, w.room))
]

register-Fits :
    (id : ℕ) (s : State) {held : ℕ} → HasRoom s → Fits s held → Fits (register id s) held
unfolding register
register-Fits id s room w = record {
  balance = w.balance;
  within = w.within;
  recorded = w.recorded;
  word = w.word;
  room = omega (arith, room, length-snoc s.cycles (record { id = id; alive = true }));
}

register_in-Fits :
    (id bytes held : ℕ) (s : State) (answer : Admitted)
    → (answer ≡ ok tt → HasRoom s)
    → Fits s (held + bytes)
    → Fits (register_in id bytes (s, answer)).0 (held + (register_in id bytes (s, answer)).1)
unfolding register_in
register_in-Fits id bytes held s (ok _) room w = register-Fits id s (room refl) w
register_in-Fits id bytes held s (err _) room w =
    Fits-held _ held (held + 0) (omega arith) (release-Fits s bytes w)
register_in-Fits id bytes held s panic room w =
    Fits-held _ held (held + 0) (omega arith) (release-Fits s bytes w)

-- The second section of `Heap::cycle_slot_with_edges`, on a reservation that is held.
pub slot_of-entered :
    (id bytes held : ℕ) (granted : Bool) (s : State)
    → Fits s (held + bytes)
    → Fits
        (slot_of id bytes granted (s, bytes, ok tt)).0
        (held + (slot_of id bytes granted (s, bytes, ok tt)).1)
unfolding slot_of
slot_of-entered id bytes held granted s w =
    register_in-Fits id bytes held (make_room granted s).0 (make_room granted s).1
      (make_room-HasRoom granted s w) (make_room-Fits granted s w)

slot_of-Fits :
    (id bytes held : ℕ) (granted : Bool) (s : State) (answer : Admitted)
    → Fits s (held + paid bytes answer)
    → Fits
        (slot_of id bytes granted (resize_to 0 bytes (s, answer))).0
        (held + (slot_of id bytes granted (resize_to 0 bytes (s, answer))).1)
unfolding slot_of resize_to
slot_of-Fits id bytes held granted s (ok _) w = slot_of-entered id bytes held granted s w
slot_of-Fits id bytes held granted s (err _) w = w
slot_of-Fits id bytes held granted s panic w = w

pub cycle_slot-Fits :
    (id bytes : ℕ) (granted : Bool) (s : State) (held : ℕ)
    → 0 < bytes
    → Fits s held
    → Fits (cycle_slot id bytes granted s).0 (held + (cycle_slot id bytes granted s).1)
unfolding cycle_slot reserve resize
cycle_slot-Fits id bytes granted s held some_bytes w =
    let grows : ltb 0 bytes ≡ true = ground arith in
    let whole : bytes - 0 ≡ bytes = omega arith in
    rw (grows, whole)
      (slot_of-Fits id bytes held granted (charge s bytes).0 (charge s bytes).1
        (charge-Fits s bytes w))

-- What `Drop for CycleSlot` does before it looks whether the slot was the last.
abbrev buried : ℕ → State → State
buried id s = record s { cycles = bury id s.cycles; live_cycles = sub_usize s.live_cycles 1 }

buried-Fits : (id : ℕ) (s : State) {held : ℕ} → Fits s held → Fits (buried id s) held
buried-Fits id s w = record {
  balance = w.balance;
  within = w.within;
  recorded = w.recorded;
  word = w.word;
  room = omega (arith, length-bury id s.cycles, w.room);
}

uncollected-Fits :
    (s : State) {held : ℕ} → Fits s held → Fits (record s { cycle_bytes_at_collection = 0 }) held
uncollected-Fits s w = record {
  balance = w.balance;
  within = w.within;
  recorded = w.recorded;
  word = w.word;
  room = w.room;
}

pub drop_slot-Fits :
    (id : ℕ) (routine : Bool) (s : State) {held : ℕ}
    → Fits s held
    → Fits (drop_slot id routine s) held
unfolding drop_slot
drop_slot-Fits id routine s w =
    let w₁ = buried-Fits id s w in
    elim (Bool-cases
      ((buried id s).live_cycles == 0 && (length (bury id s.cycles) == 0 || not routine))) [
        | inl last ↦
            rw last (uncollected-Fits (give_back (buried id s)) (give_back-Fits (buried id s) w₁))
        | inr more ↦ rw more w₁
      ]

settle-Fits : (major : Bool) (s : State) {held : ℕ} → Fits s held → Fits (settle major s) held
unfolding settle
settle-Fits major s w = record {
  balance = w.balance;
  within = w.within;
  recorded = w.recorded;
  word = w.word;
  room = w.room;
}

pub finish_cycles-Fits :
    (major : Bool) (s : State) {held : ℕ} → Fits s held → Fits (finish_cycles major s) held
unfolding finish_cycles
finish_cycles-Fits major s w = settle-Fits major (prune_cycles s) (prune_cycles-Fits s w)

pub finish_cycle_slice-Fits :
    (major : Bool) (s : State) {held : ℕ} → Fits s held → Fits (finish_cycle_slice major s) held
unfolding finish_cycle_slice
finish_cycle_slice-Fits major s w = settle-Fits major _ (give_back_if_empty-Fits s w)

pub defer_cycles-Fits : (s : State) {held : ℕ} → Fits s held → Fits (defer_cycles s) held
unfolding defer_cycles
defer_cycles-Fits s w = record {
  balance = w.balance;
  within = w.within;
  recorded = w.recorded;
  word = w.word;
  room = w.room;
}

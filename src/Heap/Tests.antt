-- ===== src/Heap/Tests.antt =====
-- Runs of the heap model, and the theorems at inputs that meet their hypotheses.
use lana.Prelude.{ℕ, ◌+◌, ◌*◌, ◌≤◌, true, false, List, [], ◌∷◌, ok, ◌≡◌, ◌↔◌, refl, arith}
use lana.Heap.State.{State, new_heap, kept, live_after, collect_strings, charge, resize}
use lana.Heap.Balance.{total, Fits}
use lana.Heap.Registry.{string, drop_string, cycle_slot, drop_slot}
use lana.Heap.World.{World, Op, run, Reachable}
use lana.Heap.History.{sum, Reachable-IsBalanced, charge_iff}
use lana.Heap.Buffer.{Buffer, reserve_more, push, extend_from_slice}
use lana.Heap.Buffer.Growth.{IsCharged}
use lana.Heap.Buffer.Extend.{Extended, extend-Extended}
use lana.Heap.Buffer.Exact.{HasSpace, reserve-eq-ok}

program : Unit {0}
unfolding new_heap run charge resize collect_strings kept live_after string drop_string cycle_slot
    drop_slot push extend_from_slice
program = tt

-- Eight bytes are reserved, three bytes of text are stored under address 4096 in two sections with
-- a sweep between them, and the text's last alias ends.
abbrev first : World
first = (run (Op.new_reservation 8) (record { state = new_heap 64; held = [] })).0

abbrev reserved : World
reserved = (run (Op.new_reservation 4) first).0

abbrev swept : World
swept = (run Op.sweep_strings reserved).0

abbrev second : World
second = (run (Op.enter_string 0 4096 true) swept).0

abbrev third : World
third = (run (Op.end_string 4096) second).0

third_reached : Reachable 64 third
unfolding program
third_reached =
    Reachable.step
      (Reachable.step
        (Reachable.step
          (Reachable.step (Reachable.step Reachable.start (Op.new_reservation 8) tt)
            (Op.new_reservation 4) tt)
          Op.sweep_strings tt)
        (Op.enter_string 0 4096 true) tt)
      (Op.end_string 4096) tt

Reachable-IsBalanced_example :
    (third.state.live
      ≡ total third.state.strings + (sum third.held + third.state.cycle_capacity * 8))
    × (third.state.live ≤ third.state.limit)
    × (third.state.live ≤ third.state.peak)
Reachable-IsBalanced_example = Reachable-IsBalanced 64 third (omega arith) third_reached

-- The dead text's bytes are counted until they are needed.
third_live : third.state.live ≡ 12
unfolding program
third_live = refl

-- A heap of four bytes that are taken by a text without an alias.
abbrev full : State
full = record (new_heap 4) {
  live = 4;
  peak = 4;
  strings = record { key = 1; alive = false; bytes = 4 } ∷ [];
}

full-Fits : Fits full 0
unfolding new_heap
full-Fits = record {
  balance = refl;
  within = omega arith;
  recorded = omega arith;
  word = omega arith;
  room = omega arith;
}

charge_iff_example :
    ((charge full 2).1 ≡ ok tt)
    ↔ (total (kept full.strings) + (0 + full.cycle_capacity * 8) + 2 ≤ full.limit)
charge_iff_example = charge_iff full 2 0 full-Fits

charge-full : (charge full 4).1 ≡ ok tt
unfolding program
charge-full = refl

-- A buffer of two eight-byte elements on a heap of three.
abbrev two : Buffer ℕ
two = record { values = 7 ∷ 9 ∷ []; capacity = 2; bytes = 16; owner_bytes = 0 }

abbrev three_words : State
three_words = record (new_heap 24) { live = 16; peak = 16; allocations = 1 }

two-IsCharged : IsCharged 8 two
two-IsCharged = record { room = omega arith; charged = refl }

three_words-Fits : Fits three_words (0 + 16)
unfolding new_heap
three_words-Fits = record {
  balance = refl;
  within = omega arith;
  recorded = omega arith;
  word = omega arith;
  room = omega arith;
}

extend-Extended_example :
    ((x : ℕ) → Extended 8 (λ c. true) 0 two (x ∷ []) (push 8 (λ c. true) x two three_words))
    × ((xs : List ℕ)
        → Extended 8 (λ c. true) 0 two xs (extend_from_slice 8 (λ c. true) xs two three_words))
extend-Extended_example =
    extend-Extended 8 (λ c. true) 0 two three_words two-IsCharged three_words-Fits

-- Doubling does not fit; the exact capacity does.
pushed : (push 8 (λ c. true) 11 two three_words).1.capacity ≡ 3
unfolding program
pushed = refl

three_words-HasSpace : HasSpace 8 (λ c. true) (λ c. refl) 0 3 two three_words
unfolding program
three_words-HasSpace = (omega arith, omega arith)

reserve-eq-ok_example : (reserve_more 8 (λ c. true) 1 two three_words).2 ≡ ok tt
reserve-eq-ok_example =
    reserve-eq-ok 8 (λ c. true) (λ c. refl) 0 1 two three_words two-IsCharged three_words-Fits
      (omega arith) three_words-HasSpace

-- ===== src/Heap/World.antt =====
-- A heap of vm/rust/lana-vm/src/heap.rs together with the reservations that its clients hold, and the
-- operations on it. Each is one step under the heap's lock, and threads interleave such steps.
-- `string` and `cycle_slot_with_edges` take the lock twice: `new_reservation` and then `enter_string` or
-- `enter_slot` are their two sections, between which other operations may run; `new_string` and
-- `new_slot` are the runs without any between.
use lana.Prelude.{
  ℕ, zero, suc, ◌<◌, ◌^◌, Bool, Option, none, some, List, [], ◌∷◌, ok, get_elem?, set,
}
use lana.Heap.State.{
  Admitted, State, new_heap, resize, reserve, release, collect_strings, set_limit,
}
use lana.Heap.Registry.{
  adopt_string, string, drop_string, slot_of, cycle_slot, drop_slot, finish_cycles,
  finish_cycle_slice, defer_cycles, cycles_due,
}
use lana.Heap.Upkeep.{Fresh}

pub record World : Type 0 where
  pub state : State
  pub held : List ℕ

-- A call of one of the heap's operations, or the end of an owner. `Bool` is the system allocator's
-- answer for a string and a slot, and the operation's own argument elsewhere.
pub data Op : Type 0 where
  new_reservation : ℕ → Op
  resize_reservation : ℕ → ℕ → Op
  drop_reservation : ℕ → Op
  new_string : ℕ → ℕ → Bool → Op
  enter_string : ℕ → ℕ → Bool → Op
  end_string : ℕ → Op
  sweep_strings : Op
  change_limit : ℕ → Op
  new_slot : ℕ → ℕ → Bool → Op
  enter_slot : ℕ → ℕ → Bool → Op
  end_slot : ℕ → Bool → Op
  end_cycles : Bool → Op
  end_slice : Bool → Op
  put_off_cycles : Op
  ask_pressure : Bool → Op

unfoldable pub remove_at : ℕ → List ℕ → List ℕ
remove_at n [] = []
remove_at zero (x ∷ xs) = xs
remove_at (suc n) (x ∷ xs) = x ∷ remove_at n xs

-- A refused call adds a reservation of no bytes, whose end changes nothing.
abbrev pub add_held : List ℕ → State × ℕ × Admitted → World × Admitted
add_held held (s, bytes, answer) = (record { state = s; held = bytes ∷ held }, answer)

abbrev pub keep_held : List ℕ → State × Admitted → World × Admitted
keep_held held (s, answer) = (record { state = s; held = held }, answer)

abbrev pub done : List ℕ → State → World × Admitted
done held s = (record { state = s; held = held }, ok tt)

-- `Reservation::resize` of reservation `i`.
unfoldable pub resize_held : ℕ → ℕ → World → Option ℕ → World × Admitted
resize_held i bytes w none = (w, ok tt)
resize_held i bytes w (some old) =
    let (s, new, answer) = resize w.state old bytes in
    (record { state = s; held = set w.held i new }, answer)

unfoldable pub release_held : ℕ → World → Option ℕ → World
release_held i w none = w
release_held i w (some old) = record { state = release w.state old; held = remove_at i w.held }

-- The second section of `Heap::string`: a string under address `key` takes over reservation `i`.
unfoldable pub enter_string_held : ℕ → ℕ → Bool → World → Option ℕ → World × Admitted
unfolding adopt_string
enter_string_held i key granted w none = (w, ok tt)
enter_string_held i key granted w (some bytes) =
    keep_held (remove_at i w.held) (adopt_string key bytes granted w.state)

-- The second section of `Heap::cycle_slot_with_edges`: slot `id` is registered and owns reservation
-- `i`, or the reservation is dropped.
unfoldable pub enter_slot_held : ℕ → ℕ → Bool → World → Option ℕ → World × Admitted
unfolding slot_of
enter_slot_held i id granted w none = (w, ok tt)
enter_slot_held i id granted w (some bytes) =
    let (s, new, answer) = slot_of id bytes granted (w.state, bytes, ok tt) in
    (record { state = s; held = set w.held i new }, answer)

-- The slot's own reservation is dropped by `drop_reservation`.
unfoldable pub run : Op → World → World × Admitted
unfolding resize_held release_held enter_string_held enter_slot_held
run (new_reservation n) w = add_held w.held (reserve w.state n)
run (resize_reservation i n) w = resize_held i n w (get_elem? w.held i)
run (drop_reservation i) w = (release_held i w (get_elem? w.held i), ok tt)
run (new_string key len granted) w = keep_held w.held (string key len granted w.state)
run (enter_string i key granted) w = enter_string_held i key granted w (get_elem? w.held i)
run (end_string key) w = done w.held (drop_string key w.state)
run sweep_strings w = done w.held (collect_strings w.state)
run (change_limit n) w = keep_held w.held (set_limit w.state n)
run (new_slot id bytes granted) w = add_held w.held (cycle_slot id bytes granted w.state)
run (enter_slot i id granted) w = enter_slot_held i id granted w (get_elem? w.held i)
run (end_slot id routine) w = done w.held (drop_slot id routine w.state)
run (end_cycles major) w = done w.held (finish_cycles major w.state)
run (end_slice major) w = done w.held (finish_cycle_slice major w.state)
run put_off_cycles w = done w.held (defer_cycles w.state)
run (ask_pressure pressure) w = done w.held (cycles_due pressure w.state).0

-- What the types and the allocator guarantee of a call: a limit is a `usize`, a slot has a size,
-- and a new string's address is no entry's, since a weak pointer keeps its allocation.
abbrev pub Admissible : Op → World → Type 0
Admissible (new_string key len granted) w = Fresh key w.state.strings
Admissible (enter_string i key granted) w = Fresh key w.state.strings
Admissible (change_limit n) w = n < 2 ^ 64
Admissible (new_slot id bytes granted) w = 0 < bytes
Admissible _ w = Unit {0}

pub data Reachable (limit : ℕ) : World → Type 0 where
  start : Reachable limit (record { state = new_heap limit; held = [] })
  step :
      {w : World} → Reachable limit w → (op : Op) → Admissible op w → Reachable limit (run op w).0

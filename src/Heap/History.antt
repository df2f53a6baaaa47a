-- ===== src/Heap/History.antt =====
-- Histories of the heap of vm/rust/lana-vm/src/heap.rs: proofs about the books, and when an
-- allocation is refused.
use lana.Prelude.{
  ℕ, zero, suc, ◌+◌, ◌*◌, ◌<◌, ◌≤◌, ◌^◌, Bool, true, false, Option, none, some, List, [], ◌∷◌, ok,
  get_elem?, set, ◌≡◌, ◌↔◌, refl, arith,
}
use mathlib.Core.Option.{some-injective}
use lana.Heap.State.{State, new_heap, resize, reserve, collect_strings, kept, charge_kept, charge}
use lana.Heap.Balance.{
  total, Fits, Fits-held, collect_strings-Fits, total-kept, release-Fits, resize-Fits,
  set_limit-Fits,
}
use lana.Heap.Registry.{slot_of, cycles_due}
use lana.Heap.Upkeep.{Fresh, adopt_string-Fits, string-Fits, drop_string-Fits}
use lana.Heap.Slots.{
  slot_of-entered, cycle_slot-Fits, drop_slot-Fits, finish_cycles-Fits, finish_cycle_slice-Fits,
  defer_cycles-Fits,
}
use lana.Heap.World.{
  World, Op, remove_at, resize_held, release_held, enter_string_held, enter_slot_held, run,
  Admissible, Reachable,
}

abbrev pub sum : List ℕ → ℕ
sum [] = 0
sum (x ∷ xs) = x + sum xs

sum-set :
    (xs : List ℕ) (i old new : ℕ)
    → get_elem? xs i ≡ some old
    → sum (set xs i new) + old ≡ sum xs + new
sum-set [] i old new h = cc
sum-set (x ∷ xs) zero old new h = let same : x ≡ old = some-injective _ _ h in omega (arith, same)
sum-set (x ∷ xs) (suc i) old new h = let rest = sum-set xs i old new h in omega (arith, rest)

sum-remove_at :
    (xs : List ℕ) (i old : ℕ) → get_elem? xs i ≡ some old → sum (remove_at i xs) + old ≡ sum xs
unfolding remove_at
sum-remove_at [] i old h = cc
sum-remove_at (x ∷ xs) zero old h = let same : x ≡ old = some-injective _ _ h in omega (arith, same)
sum-remove_at (x ∷ xs) (suc i) old h = let rest = sum-remove_at xs i old h in omega (arith, rest)

abbrev IsBalanced : World → Type 0
IsBalanced w = Fits w.state (sum w.held)

resize_held-IsBalanced :
    (i bytes : ℕ) (w : World) (found : Option ℕ)
    → get_elem? w.held i ≡ found
    → IsBalanced w
    → IsBalanced (resize_held i bytes w found).0
unfolding resize_held
resize_held-IsBalanced i bytes w none h b = b
resize_held-IsBalanced i bytes w (some old) h b =
    let new = (resize w.state old bytes).1 in
    let out = sum-set w.held i old 0 h in
    let in_place = sum-set w.held i old new h in
    let others = sum (set w.held i 0) in
    let b₁ = Fits-held _ _ (others + old) (omega (arith, out)) b in
    Fits-held _ (others + new) (sum (set w.held i new)) (omega (arith, out, in_place))
      (resize-Fits w.state old bytes others b₁)

release_held-IsBalanced :
    (i : ℕ) (w : World) (found : Option ℕ)
    → get_elem? w.held i ≡ found
    → IsBalanced w
    → IsBalanced (release_held i w found)
unfolding release_held
release_held-IsBalanced i w none h b = b
release_held-IsBalanced i w (some old) h b =
    let out = sum-remove_at w.held i old h in
    release-Fits w.state old (Fits-held _ _ (sum (remove_at i w.held) + old) (omega (arith, out)) b)

enter_string_held-IsBalanced :
    (i key : ℕ) (granted : Bool) (w : World) (found : Option ℕ)
    → get_elem? w.held i ≡ found
    → Fresh key w.state.strings
    → IsBalanced w
    → IsBalanced (enter_string_held i key granted w found).0
unfolding enter_string_held
enter_string_held-IsBalanced i key granted w none h fresh b = b
enter_string_held-IsBalanced i key granted w (some bytes) h fresh b =
    let out = sum-remove_at w.held i bytes h in
    adopt_string-Fits key bytes granted w.state fresh
      (Fits-held _ _ (sum (remove_at i w.held) + bytes) (omega (arith, out)) b)

enter_slot_held-IsBalanced :
    (i id : ℕ) (granted : Bool) (w : World) (found : Option ℕ)
    → get_elem? w.held i ≡ found
    → IsBalanced w
    → IsBalanced (enter_slot_held i id granted w found).0
unfolding enter_slot_held
enter_slot_held-IsBalanced i id granted w none h b = b
enter_slot_held-IsBalanced i id granted w (some bytes) h b =
    let new = (slot_of id bytes granted (w.state, bytes, ok tt)).1 in
    let out = sum-set w.held i bytes 0 h in
    let in_place = sum-set w.held i bytes new h in
    let others = sum (set w.held i 0) in
    let b₁ = Fits-held _ _ (others + bytes) (omega (arith, out)) b in
    Fits-held _ (others + new) (sum (set w.held i new)) (omega (arith, out, in_place))
      (slot_of-entered id bytes others granted w.state b₁)

cycles_due-Fits :
    (pressure : Bool) (s : State) {held : ℕ} → Fits s held → Fits (cycles_due pressure s).0 held
unfolding cycles_due
cycles_due-Fits true s w = record {
  balance = w.balance;
  within = w.within;
  recorded = w.recorded;
  word = w.word;
  room = w.room;
}
cycles_due-Fits false s w = w

run-IsBalanced : (op : Op) (w : World) → Admissible op w → IsBalanced w → IsBalanced (run op w).0
unfolding run reserve
run-IsBalanced (Op.new_reservation n) w a b = Fits-held _ _ _ (omega arith) (
    resize-Fits w.state 0 n (sum w.held)
      (Fits-held w.state (sum w.held) (sum w.held + 0) (omega arith) b))
run-IsBalanced (Op.resize_reservation i n) w a b =
    resize_held-IsBalanced i n w (get_elem? w.held i) refl b
run-IsBalanced (Op.drop_reservation i) w a b =
    release_held-IsBalanced i w (get_elem? w.held i) refl b
run-IsBalanced (Op.new_string key len granted) w a b =
    string-Fits key len granted w.state (sum w.held) a b
run-IsBalanced (Op.enter_string i key granted) w a b =
    enter_string_held-IsBalanced i key granted w (get_elem? w.held i) refl a b
run-IsBalanced (Op.end_string key) w a b = drop_string-Fits key w.state b
run-IsBalanced Op.sweep_strings w a b = collect_strings-Fits w.state b
run-IsBalanced (Op.change_limit n) w a b = set_limit-Fits w.state n a b
run-IsBalanced (Op.new_slot id bytes granted) w a b =
    Fits-held _ _ _ (omega arith) (cycle_slot-Fits id bytes granted w.state (sum w.held) a b)
run-IsBalanced (Op.enter_slot i id granted) w a b =
    enter_slot_held-IsBalanced i id granted w (get_elem? w.held i) refl b
run-IsBalanced (Op.end_slot id routine) w a b = drop_slot-Fits id routine w.state b
run-IsBalanced (Op.end_cycles major) w a b = finish_cycles-Fits major w.state b
run-IsBalanced (Op.end_slice major) w a b = finish_cycle_slice-Fits major w.state b
run-IsBalanced Op.put_off_cycles w a b = defer_cycles-Fits w.state b
run-IsBalanced (Op.ask_pressure pressure) w a b = cycles_due-Fits pressure w.state b

Reachable-Fits : {limit : ℕ} {w : World} → limit < 2 ^ 64 → Reachable limit w → IsBalanced w
unfolding new_heap
Reachable-Fits small Reachable.start = record {
  balance = refl;
  within = omega arith;
  recorded = omega arith;
  word = small;
  room = omega arith;
}
Reachable-Fits small (Reachable.step r op a) = run-IsBalanced op _ a (Reachable-Fits small r)

-- In every history of a heap, starting from a limit that is a `usize`, in which other operations may
-- run between the two sections of `string` and `cycle_slot_with_edges`, the live bytes are exactly
-- those of the strings, of the reservations held and of the cycle registry, and they pass neither
-- the limit nor the peak.
pub Reachable-IsBalanced :
    (limit : ℕ) (w : World)
    → limit < 2 ^ 64
    → Reachable limit w
    → (w.state.live ≡ total w.state.strings + (sum w.held + w.state.cycle_capacity * 8))
      × (w.state.live ≤ w.state.limit)
      × (w.state.live ≤ w.state.peak)
Reachable-IsBalanced limit w small r =
    let b = Reachable-Fits small r in (b.balance, b.within, b.recorded)

-- On a heap with balanced books a charge succeeds exactly if it fits in the limit beside the
-- strings that are still alive, the reservations and the cycle registry.
pub charge_iff :
    (s : State) (bytes held : ℕ)
    → Fits s held
    → ((charge s bytes).1 ≡ ok tt)
      ↔ (total (kept s.strings) + (held + s.cycle_capacity * 8) + bytes ≤ s.limit)
unfolding charge charge_kept collect_strings
charge_iff s bytes held w =
    let w₁ = (collect_strings-Fits s w).balance in
    let less = total-kept s.strings in
    let whole = w.balance in let within = w.within in ground arith

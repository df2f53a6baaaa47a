-- ===== src/Heap/Registry.antt =====
-- Strings and the cycle registry of vm/rust/lana-vm/src/heap.rs, on a heap without a collector, whose
-- admission is empty. `granted` is the system allocator's answer to `try_reserve`.
use lana.Prelude.{
  ℕ, ◌+◌, ◌-◌, ◌*◌, ◌/◌, ◌%◌, ◌^◌, min, max, Bool, true, false, not, ◌&&◌, ◌||◌, ltb, leb, ◌==◌,
  if◌then◌else◌, List, [], ◌∷◌, ◌++◌, ok, err, length,
}
use lana.Bytecode.Error.{LanaError}
use lana.Heap.State.{
  Admitted, add_usize, sub_usize, saturating_add, saturating_mul, StringEntry, Slot, State,
  collect_strings, charge, reserve, release,
}

-- `HashMap::insert`, under an address that no other entry has.
unfoldable pub without : ℕ → List StringEntry → List StringEntry
without key [] = []
without key (e ∷ es) = let rest = without key es in if e.key == key then rest else e ∷ rest

unfoldable pub insert : ℕ → ℕ → State → State
unfolding without
insert key bytes s = record s {
  strings = record { key = key; alive = true; bytes = bytes } ∷ without key s.strings;
}

-- `Heap::string` of a text of `len` bytes after its reservation was made.
unfoldable pub adopt_string : ℕ → ℕ → Bool → State → State × Admitted
unfolding collect_strings insert release
adopt_string key bytes granted s =
    let s₁ = if s.allocations % 256 == 0 then collect_strings s else s in
    if granted then (insert key bytes s₁, ok tt) else (release s₁ bytes, err LanaError.oom)

unfoldable pub string_of : ℕ → ℕ → Bool → State × ℕ × Admitted → State × Admitted
unfolding adopt_string
string_of key bytes granted (s, _, ok _) = adopt_string key bytes granted s
string_of key bytes granted (s, _, failure) = (s, failure)

-- `Heap::string`
unfoldable pub string : ℕ → ℕ → Bool → State → State × Admitted
unfolding string_of reserve
string key len granted s =
    if ltb (len + 1) (2 ^ 64)
    then string_of key (len + 1) granted (reserve s (len + 1))
    else (s, err LanaError.oom)

-- The last owner of a string goes away; its entry stays until it is collected.
unfoldable pub forget : ℕ → List StringEntry → List StringEntry
forget key [] = []
forget key (e ∷ es) = record e { alive = e.alive && not (e.key == key) } ∷ forget key es

unfoldable pub drop_string : ℕ → State → State
unfolding forget
drop_string key s = record s { strings = forget key s.strings }

-- `size_of::<Weak<CycleSlot>>()`
abbrev pub weak_size : ℕ
weak_size = 8

unfoldable pub live_slots : List Slot → List Slot
live_slots [] = []
live_slots (c ∷ cs) = let rest = live_slots cs in if c.alive then c ∷ rest else rest

-- The registry's storage is given back.
unfoldable pub give_back : State → State
give_back s = record s {
  live = sub_usize s.live (s.cycle_capacity * weak_size);
  cycles = [];
  cycle_capacity = 0;
}

unfoldable pub give_back_if_empty : State → State
unfolding give_back
give_back_if_empty s = if length s.cycles == 0 then give_back s else s

unfoldable pub prune_cycles : State → State
unfolding live_slots give_back_if_empty
prune_cycles s = give_back_if_empty (record s { cycles = live_slots s.cycles })

abbrev pub grown_capacity : ℕ → ℕ
grown_capacity capacity = max (saturating_mul capacity 2) 16

unfoldable pub grant : Bool → ℕ → ℕ → State × Admitted → State × Admitted
unfolding release
grant granted capacity bytes (s, ok _) =
    if granted
    then (record s { cycle_capacity = capacity }, ok tt)
    else (release s bytes, err LanaError.oom)
grant granted capacity bytes (s, failure) = (s, failure)

-- The growth of the registry when it is full.
unfoldable pub grow : Bool → State → State × Admitted
unfolding grant charge
grow granted s =
    let capacity = grown_capacity s.cycle_capacity in
    let bytes = (capacity - length s.cycles) * weak_size in
    if ltb bytes (2 ^ 64)
    then grant granted capacity bytes (charge s bytes)
    else (s, err LanaError.oom)

unfoldable pub is_full : State → Bool
is_full s = length s.cycles == s.cycle_capacity

unfoldable pub make_room : Bool → State → State × Admitted
unfolding is_full prune_cycles grow
make_room granted s =
    if is_full s
    then (let s₁ = prune_cycles s in if is_full s₁ then grow granted s₁ else (s₁, ok tt))
    else (s, ok tt)

unfoldable pub register : ℕ → State → State
register id s = record s {
  cycles = s.cycles ++ (record { id = id; alive = true } ∷ []);
  live_cycles = add_usize s.live_cycles 1;
  cycles_since_collection = saturating_add s.cycles_since_collection 1;
}

-- With the slot's own reservation made: on failure it is released.
unfoldable pub register_in : ℕ → ℕ → State × Admitted → State × ℕ × Admitted
unfolding register release
register_in id bytes (s, ok _) = (register id s, bytes, ok tt)
register_in id bytes (s, failure) = (release s bytes, 0, failure)

unfoldable pub slot_of : ℕ → ℕ → Bool → State × ℕ × Admitted → State × ℕ × Admitted
unfolding register_in make_room
slot_of id bytes granted (s, _, ok _) = register_in id bytes (make_room granted s)
slot_of id bytes granted (s, held, failure) = (s, 0, failure)

-- `Heap::cycle_slot_with_edges` for a slot of `bytes` bytes; the number is what it holds.
unfoldable pub cycle_slot : ℕ → ℕ → Bool → State → State × ℕ × Admitted
unfolding slot_of reserve
cycle_slot id bytes granted s = slot_of id bytes granted (reserve s bytes)

unfoldable pub bury : ℕ → List Slot → List Slot
bury id [] = []
bury id (c ∷ cs) = record c { alive = c.alive && not (c.id == id) } ∷ bury id cs

-- `Drop for CycleSlot`, before its reservation is dropped.
unfoldable pub drop_slot : ℕ → Bool → State → State
unfolding bury give_back
drop_slot id routine s =
    let s₁ = record s { cycles = bury id s.cycles; live_cycles = sub_usize s.live_cycles 1 } in
    if s₁.live_cycles == 0 && (length s₁.cycles == 0 || not routine)
    then record (give_back s₁) { cycle_bytes_at_collection = 0 }
    else s₁

-- The end of `finish_cycle_slice` and of `finish_cycles`.
unfoldable pub settle : Bool → State → State
settle major s = record s {
  cycles_since_collection = 0;
  cycle_bytes_at_collection = s.live;
  collection_deferred = false;
  cycle_bytes_at_major = if major then s.live else s.cycle_bytes_at_major;
}

unfoldable pub finish_cycle_slice : Bool → State → State
unfolding settle give_back_if_empty
finish_cycle_slice major s = settle major (give_back_if_empty s)

unfoldable pub finish_cycles : Bool → State → State
unfolding settle prune_cycles
finish_cycles major s = settle major (prune_cycles s)

unfoldable pub defer_cycles : State → State
defer_cycles s = record s {
  cycles_since_collection = 0;
  cycle_bytes_at_collection = s.live;
  collection_deferred = true;
}

-- `cycles_due` writes `cycle_bytes_at_collection` when it is asked under pressure.
unfoldable pub cycles_due : Bool → State → State × Bool
cycles_due pressure s =
    let s₁ = record s { cycle_bytes_at_collection = min s.cycle_bytes_at_collection s.live } in
    if pressure
    then (
      s₁,
      (ltb 0 s₁.cycles_since_collection || s₁.collection_deferred)
          && leb (saturating_add s₁.cycle_bytes_at_collection (s₁.limit / 8)) s₁.live,
    )
    else (s, false)

unfoldable pub major_collection_due : Bool → State → Bool
major_collection_due pressure s =
    pressure && leb (saturating_add s.cycle_bytes_at_major (s.limit / 2)) s.live

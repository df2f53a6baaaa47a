-- ===== src/Heap/State.antt =====
-- The accounting state of vm/rust/lana-vm/src/heap.rs. A `usize` has 64 bits. A weak pointer is
-- its target's key with a flag that tells whether an owner is left.
use lana.Prelude.{
  ℕ, ◌+◌, ◌-◌, ◌*◌, ◌%◌, ◌^◌, min, max, Bool, false, ltb, ◌==◌, if◌then◌else◌, List, [], ◌∷◌,
  Result, ok, err,
}
use lana.Bytecode.Error.{LanaError}

abbrev pub Admitted : Type 0
Admitted = Result LanaError (Unit {0})

-- `a += b` and `a -= b` on `usize`, wrapping as a release build does.
abbrev pub add_usize : ℕ → ℕ → ℕ
add_usize a b = (a + b) % 2 ^ 64

abbrev pub sub_usize : ℕ → ℕ → ℕ
sub_usize a b = (a + 2 ^ 64 - b) % 2 ^ 64

-- `saturating_add` and `saturating_mul`
abbrev pub saturating_add : ℕ → ℕ → ℕ
saturating_add a b = min (a + b) (2 ^ 64 - 1)

abbrev pub saturating_mul : ℕ → ℕ → ℕ
saturating_mul a b = min (a * b) (2 ^ 64 - 1)

-- `(Weak<str>, usize)` under its address
pub record StringEntry : Type 0 where
  pub key : ℕ
  pub alive : Bool
  pub bytes : ℕ

-- `Weak<CycleSlot>`
pub record Slot : Type 0 where
  pub id : ℕ
  pub alive : Bool

pub record State : Type 0 where
  pub limit : ℕ
  pub live : ℕ
  pub peak : ℕ
  pub allocations : ℕ
  pub strings : List StringEntry
  pub cycles : List Slot
  pub cycle_capacity : ℕ
  pub cycles_since_collection : ℕ
  pub live_cycles : ℕ
  pub cycle_bytes_at_collection : ℕ
  pub cycle_bytes_at_major : ℕ
  pub collection_deferred : Bool

-- `Heap::new`
unfoldable pub new_heap : ℕ → State
new_heap limit = record {
  limit = limit;
  live = 0;
  peak = 0;
  allocations = 0;
  strings = [];
  cycles = [];
  cycle_capacity = 0;
  cycles_since_collection = 0;
  live_cycles = 0;
  cycle_bytes_at_collection = 0;
  cycle_bytes_at_major = 0;
  collection_deferred = false;
}

-- The entries that `retain` keeps, and `live` after it.
unfoldable pub kept : List StringEntry → List StringEntry
kept [] = []
kept (e ∷ es) = let rest = kept es in if e.alive then e ∷ rest else rest

unfoldable pub live_after : List StringEntry → ℕ → ℕ
live_after [] live = live
live_after (e ∷ es) live = live_after es (if e.alive then live else sub_usize live e.bytes)

unfoldable pub collect_strings : State → State
unfolding kept live_after
collect_strings s = record s { strings = kept s.strings; live = live_after s.strings s.live }

-- The part of `charge` after its checks.
unfoldable pub credit : State → ℕ → State
credit s bytes = record s {
  live = add_usize s.live bytes;
  peak = max s.peak (add_usize s.live bytes);
  allocations = if bytes == 0 then s.allocations else saturating_add s.allocations 1;
}

unfoldable pub charge_kept : State → ℕ → State × Admitted
unfolding credit
charge_kept s bytes =
    if ltb (s.limit - s.live) bytes then (s, err LanaError.oom) else (credit s bytes, ok tt)

unfoldable pub charge : State → ℕ → State × Admitted
unfolding charge_kept collect_strings
charge s bytes = charge_kept (if ltb (s.limit - s.live) bytes then collect_strings s else s) bytes

-- `Reservation::resize` of a reservation of `held` bytes; the number is what it holds afterwards.
unfoldable pub resize_to : ℕ → ℕ → State × Admitted → State × ℕ × Admitted
resize_to held bytes (s, ok _) = (s, bytes, ok tt)
resize_to held bytes (s, failure) = (s, held, failure)

unfoldable pub resize : State → ℕ → ℕ → State × ℕ × Admitted
unfolding resize_to charge
resize s held bytes =
    if ltb held bytes
    then resize_to held bytes (charge s (bytes - held))
    else (record s { live = sub_usize s.live (held - bytes) }, bytes, ok tt)

-- `Heap::reserve`
unfoldable pub reserve : State → ℕ → State × ℕ × Admitted
unfolding resize
reserve s bytes = resize s 0 bytes

-- `Drop for Reservation`
unfoldable pub release : State → ℕ → State
release s held = record s { live = sub_usize s.live held }

unfoldable pub set_limit : State → ℕ → State × Admitted
unfolding collect_strings
set_limit s limit =
    let s₁ = collect_strings s in
    if ltb limit s₁.live then (s₁, err LanaError.oom) else (record s₁ { limit = limit }, ok tt)

-- ===== src/Vm/Nested/Turns.antt =====
-- The turns of a nested run in vm/rust/lana-vm/src/vm.rs.
use lana.Prelude.{
  ℕ, suc, ◌-◌, ◌<◌, true, ltb, ltb→lt, if_either, List, [], ◌∷◌, length, get_elem?, All, All-get,
  Option, some, none, ◌≡◌, ◌⊎◌, inl, inr, ok, err, panic, refl, arith, subst, sym, ap, Bool-cases,
}
use lana.Bytecode.Float.{F64}
use lana.Bytecode.Chunk.{Instruction, Chunk}
use lana.Bytecode.Verifier.Verified.{InstructionFits}
use lana.Heap.State
use lana.Heap.State.{release}
use lana.Vm.Machine.{Frame, Vm, Run}
use lana.Vm.Stack.{IsWellFormed, Safe}
use lana.Vm.Execute.{is_plain, execute}
use lana.Vm.Execute.Safety.{execute-Safe}
use lana.Vm.Execute.Moves.{Moves, execute-Moves}
use lana.Vm.Execute.Balance.{Above, Above-length, Returned, move-Above}
use lana.Vm.Dispatch.Returns.{IsPlain}
use lana.Vm.Nested.{drop_frames, abandon, keep_going, nested_at, nested_turn}

drop_frames-Above :
    (base : List Frame) (ip register : ℕ) (heap : State.State) (fs : List Frame)
    → Above base ip register fs
    → (drop_frames (length fs - length base) heap fs).1 ≡ base
unfolding drop_frames
drop_frames-Above base ip register heap [] h = absurd h
drop_frames-Above base ip register heap (f ∷ fs) (inl (e, _, _)) =
    let one : length (f ∷ fs) - length base ≡ 1 = omega (arith, ap length e) in
    subst (λ n. (drop_frames n heap (f ∷ fs)).1 ≡ base) (sym one) e
drop_frames-Above base ip register heap (f ∷ fs) (inr h) =
    let more : length (f ∷ fs) - length base ≡ suc (length fs - length base) =
      omega (arith, Above-length base ip register fs h) in
    subst (λ n. (drop_frames n heap (f ∷ fs)).1 ≡ base) (sym more)
      (drop_frames-Above base ip register (release heap f.allocation) fs h)

module _ (base : List Frame) (ip register : ℕ) where
  -- The frames below are all there is, and control is where it was.
  abbrev pub Left : Vm → Type 0
  Left vm = (vm.frames ≡ base) × (vm.ip ≡ ip)

  abandon-Left : (vm : Vm) → Above base ip register vm.frames → Left (abandon (length base) ip vm)
  unfolding abandon
  abandon-Left vm h = (drop_frames-Above base ip register vm.heap vm.frames h, refl)

  -- A turn counts one instruction and stays above the base or returns to it, or gives up.
  abbrev pub Turned : Chunk → Vm → Run Vm → Type 0
  Turned chunk vm (ok after) =
      (vm.instruction_count < vm.instruction_limit)
      × (after.instruction_count ≡ suc vm.instruction_count)
      × (after.instruction_limit ≡ vm.instruction_limit)
      × (after.running ≡ true → IsWellFormed chunk after)
      × (Above base ip register after.frames ⊎ Returned base ip register after)
  Turned chunk vm (err f) = Left f.machine
  Turned chunk vm panic = ⊥

  module _ (slot : ℕ) (others : Instruction → Vm → Run Vm) (fl : F64) (chunk : Chunk)
      (fits : All (InstructionFits fl chunk) chunk.code) (kind : IsPlain chunk) (vm : Vm)
      (w : IsWellFormed chunk vm) (above : Above base ip register vm.frames) where
    abbrev counted : Vm
    counted = record vm { instruction_count = suc vm.instruction_count }

    abbrev fetched : Vm
    fetched = record counted { ip = suc vm.ip }

    keep_going-Turned :
        (outcome : Run Vm)
        → vm.instruction_count < vm.instruction_limit
        → Safe chunk fetched outcome
        → ((after : Vm) → outcome ≡ ok after → Moves fetched after)
        → Turned chunk vm (keep_going (length base) ip outcome)
    unfolding keep_going
    keep_going-Turned (ok after) room (one, same, safe) moves =
        (room, one, same, safe, move-Above base ip register fetched after (moves after refl) above)
    keep_going-Turned (err f) room (_, still) moves =
        abandon-Left f.machine (subst (Above base ip register) (sym still) above)
    keep_going-Turned panic room safe moves = safe

    nested_at-Turned :
        (o : Option Instruction)
        → get_elem? chunk.code vm.ip ≡ o
        → Turned chunk vm (nested_at slot others chunk (length base) ip vm o)
    unfolding nested_at
    nested_at-Turned none e = abandon-Left vm above
    nested_at-Turned (some i) found =
        let plain = All-get (λ j. is_plain j.opcode ≡ true) chunk.code vm.ip kind.code found in
        let accepts = (All-get (InstructionFits fl chunk) chunk.code vm.ip fits found).accepts in
        let w' : IsWellFormed chunk counted = record {
          stack = w.stack;
          depth = w.depth;
          outside = w.outside;
          sizes = w.sizes;
          heap = w.heap;
        } in
        elim (Bool-cases (ltb vm.instruction_count vm.instruction_limit)) [
          | inl room ↦ rw room (
              keep_going-Turned (execute slot others chunk i fetched) (ltb→lt _ _ room)
                (execute-Safe slot others fl chunk counted i found w' plain accepts)
                (λ after done. execute-Moves slot others chunk fetched after i plain done))
          | inr full ↦ rw full (abandon-Left counted above)
        ]

    pub nested_turn-Turned : Turned chunk vm (nested_turn slot others chunk (length base) ip vm)
    unfolding nested_turn
    nested_turn-Turned =
        let P = Turned chunk vm in
        if_either P vm.cancelled (abandon-Left vm above) (
          if_either P (ltb vm.memory_limit vm.heap.live) (abandon-Left vm above)
            (nested_at-Turned (get_elem? chunk.code vm.ip) refl))

-- ===== src/Vm/Dispatch/Returns.antt =====
-- `dispatch_loop`, `run` and `Vm::new` of vm/rust/lana-vm/src/vm.rs on chunks of plain
-- instructions.
use lana.Prelude.{
  length-replicate, ℕ, zero, suc, ◌-◌, ◌<◌, Bool, true, false, ltb, if◌then◌else◌, List, get_elem?,
  Option, some, none, All, All-get, ◌≡◌, ◌⊎◌, inl, inr, ok, err, panic, refl, arith, subst, sym,
  ◌∙◌, Bool-cases, if_either, ltb→lt,
}
use lana.Bytecode.Error.{LanaError}
use lana.Bytecode.Float.{F64}
use lana.Bytecode.Chunk.{Instruction, Chunk}
use lana.Bytecode.Objects.Descriptor.{Serde}
use lana.Bytecode.Verifier.{Verdict, verify}
use lana.Bytecode.Verifier.Verified.{InstructionFits, verify-Verified}
use lana.Heap.State.{new_heap}
use lana.Vm.Values.{ValueKind, plain, no_history}
use lana.Vm.Frames.Regions.{Suffices}
use lana.Vm.Frames.Rooms.{Complete, compute_max_registers-Complete}
use lana.Vm.Machine.{Vm, VmError, Run, new_frame}
use lana.Vm.Outcome.{Outcome}
use lana.Vm.Stack.{IsWellFormed, Safe}
use lana.Vm.Execute.{is_plain}
use lana.Vm.Execute.Safety.{execute-Safe}
use lana.Vm.Dispatch.{
  Turn, go_on, stop, breaks, first_error, fail, machine, settle, execute_at, turn, dispatch_loop,
  start, run, new,
}

-- A chunk without objects whose instructions are all plain.
pub record IsPlain (chunk : Chunk) : Type 0 where
  pub version : chunk.version < 6
  pub code : All (λ i. is_plain i.opcode ≡ true) chunk.code

-- The machine has stopped, in one of the ways that are known; a failure has been reported.
pub record Ended (code : LanaError) (last : Vm) : Type 0 where
  pub stopped : last.running ≡ false
  pub outcome : Outcome code
  pub reported : (code ≡ LanaError.ok) ⊎ ((e : VmError) × (last.error ≡ some e))

first_error-some :
    (old : Option VmError) (new : VmError) → (e : VmError) × (first_error old new ≡ some e)
first_error-some (some e) new = (e, refl)
first_error-some none new = (new, refl)

fail-Ended :
    (code : LanaError) (ip opcode line : ℕ) (vm : Vm)
    → Outcome code
    → Ended code (fail code ip opcode line vm)
unfolding fail
fail-Ended code ip opcode line vm o = record {
  stopped = refl;
  outcome = o;
  reported = inr (first_error-some vm.error _);
}

ok-Ended : (vm : Vm) → vm.running ≡ false → Ended LanaError.ok vm
ok-Ended vm h = record { stopped = h; outcome = Outcome.ok; reported = inl refl }

-- A turn of the loop counts one instruction below the limit and leaves a machine that is well
-- formed if it runs on, or ends the run.
abbrev Advances : Chunk → Vm → Run Turn → Type 0
Advances chunk vm (ok (go_on after)) =
    (vm.instruction_count < vm.instruction_limit)
    × (after.instruction_count ≡ suc vm.instruction_count)
    × (after.instruction_limit ≡ vm.instruction_limit)
    × (after.running ≡ true → IsWellFormed chunk after)
Advances chunk vm (ok (stop code last)) = Ended code last
Advances chunk vm (err _) = ⊥
Advances chunk vm panic = ⊥

-- The loop ends, and the machine has stopped.
unfoldable pub Returns : Option (Run (LanaError × Vm)) → Type 0
Returns (some (ok (code, last))) = Ended code last
Returns _ = ⊥

module _ (slot : ℕ) (others : Instruction → Vm → Run Vm) (fl : F64) (chunk : Chunk) where
  -- What the verifier and the kind of the program give.
  abbrev Known : Type 0
  Known = All (InstructionFits fl chunk) chunk.code × IsPlain chunk

  settle-Advances :
      (single_step : Bool) (i : Instruction) (vm before : Vm) (outcome : Run Vm)
      → vm.instruction_count < vm.instruction_limit
      → before.instruction_count ≡ suc vm.instruction_count
      → before.instruction_limit ≡ vm.instruction_limit
      → Safe chunk before outcome
      → Advances chunk vm (settle single_step i outcome)
  unfolding settle fail
  settle-Advances true i vm before (ok after) room one same (counted, limit, safe) =
      (room, counted ∙ one, limit ∙ same, λ runs. absurd cc)
  settle-Advances false i vm before (ok after) room one same (counted, limit, safe) =
      (room, counted ∙ one, limit ∙ same, safe)
  settle-Advances single_step i vm before (err f) room one same safe =
      fail-Ended f.code _ _ _ f.machine safe.0
  settle-Advances single_step i vm before panic room one same safe = safe

  execute_at-Advances :
      (single_step : Bool) (vm : Vm) (o : Option Instruction)
      → get_elem? chunk.code vm.ip ≡ o
      → Known
      → vm.instruction_count < vm.instruction_limit
      → IsWellFormed chunk vm
      → Advances chunk vm (
          execute_at slot others chunk single_step
            (record vm { instruction_count = suc vm.instruction_count })
            o)
  unfolding execute_at fail
  execute_at-Advances single_step vm none e known room w =
      fail-Ended LanaError.jump _ _ _ (record vm { instruction_count = suc vm.instruction_count })
        Outcome.jump
  execute_at-Advances single_step vm (some i) found (fits, kind) room w =
      let counted = record vm { instruction_count = suc vm.instruction_count } in
      let w' : IsWellFormed chunk counted = record {
        stack = w.stack;
        depth = w.depth;
        outside = w.outside;
        sizes = w.sizes;
        heap = w.heap;
      } in
      let safe =
        execute-Safe slot others fl chunk counted i found w'
          (All-get (λ j. is_plain j.opcode ≡ true) chunk.code vm.ip kind.code found)
          (All-get (InstructionFits fl chunk) chunk.code vm.ip fits found).accepts in
      if_either (Advances chunk vm) (breaks vm.breakpoint_line i.line)
        (ok-Ended (record counted { breakpoint_hit = true; running = false }) refl)
        (settle-Advances single_step i vm (record counted { ip = suc vm.ip }) _ room refl refl safe)

  turn-Advances :
      (single_step : Bool) (vm : Vm)
      → Known
      → IsWellFormed chunk vm
      → Advances chunk vm (turn slot others chunk single_step vm)
  unfolding turn fail
  turn-Advances single_step vm known w =
      let P = Advances chunk vm in
      if_either P (ltb vm.memory_limit vm.heap.live) (fail-Ended LanaError.oom _ _ _ vm Outcome.oom)
        (if_either P vm.cancelled (fail-Ended LanaError.cancelled _ _ _ vm Outcome.cancelled)
          (elim (Bool-cases (ltb vm.instruction_count vm.instruction_limit)) [
            | inl room ↦ rw room (
                execute_at-Advances single_step vm (get_elem? chunk.code vm.ip) refl known
                  (ltb→lt _ _ room) w)
            | inr full ↦ rw full (
                fail-Ended LanaError.limit _ _ _
                  (record vm { instruction_count = suc vm.instruction_count }) Outcome.limit)
          ]))

  pub dispatch_loop-Returns :
      (single_step : Bool) (fuel : ℕ) (vm : Vm)
      → Known
      → (vm.running ≡ true → IsWellFormed chunk vm)
      → vm.instruction_limit - vm.instruction_count < fuel
      → Returns (dispatch_loop slot others chunk single_step fuel vm)
  unfolding dispatch_loop Returns
  dispatch_loop-Returns single_step zero vm known w enough = absurd (omega arith)
  dispatch_loop-Returns single_step (suc fuel) vm known w enough =
      go vm.running refl (turn slot others chunk single_step vm)
        (λ runs. turn-Advances single_step vm known (w runs))
        (λ after safe less. dispatch_loop-Returns single_step fuel after known safe less)
    where
      go :
          (b : Bool)
          → vm.running ≡ b
          → (r : Run Turn) → (vm.running ≡ true → Advances chunk vm r)
          → ((after : Vm)
              → (after.running ≡ true → IsWellFormed chunk after)
              → after.instruction_limit - after.instruction_count < fuel
              → Returns (dispatch_loop slot others chunk single_step fuel after))
          → Returns (
              if b
              then elim r [
                | ok (go_on after) ↦ dispatch_loop slot others chunk single_step fuel after
                | ok (stop code last) ↦ some (ok (code, last))
                | err f ↦ some (err f)
                | panic ↦ some panic
              ]
              else some (ok (LanaError.ok, vm)))
      go false stopped r advances more = ok-Ended vm stopped
      go true runs (ok (go_on after)) advances more =
          let (room, counted, limit, safe) = advances runs in
          more after safe (omega (arith, room, counted, limit, enough))
      go true runs (ok (stop code last)) advances more = advances runs
      go true runs (err f) advances more = advances runs
      go true runs panic advances more = advances runs

  pub entry-IsWellFormed :
      (sizes : List ℕ) → Complete chunk sizes → IsWellFormed chunk (machine chunk sizes)
  unfolding Suffices new_heap new_frame machine
  entry-IsWellFormed sizes c = record {
    stack = record {
      histories =
          length-replicate 256 no_history ∙ sym (length-replicate 256 (plain ValueKind.null));
      suffices = inl (omega (arith, length-replicate 256 (plain ValueKind.null)));
    };
    depth = omega arith;
    outside = refl;
    sizes = c;
    heap = record {
      balance = omega arith;
      within = omega arith;
      recorded = omega arith;
      word = omega arith;
      room = omega arith;
    };
  }

  module _ (sd : Serde) where
    -- A chunk of plain instructions that the verifier accepts gets a machine, and its run returns
    -- with the machine stopped: it neither panics nor goes on for ever, for any instruction left
    -- aside. One turn of the loop more than the limit of instructions is enough.
    pub run-Returns :
        (fuel : ℕ)
        → verify fl sd chunk ≡ ok tt
        → IsPlain chunk
        → 50000000 < fuel
        → (vm : Vm) × (new chunk ≡ ok vm) × Returns (run slot others chunk fl sd fuel vm)
    unfolding new run start
    run-Returns fuel verified kind enough =
        let v = (verify-Verified fl sd chunk).0 verified in
        let (sizes, computed, c, _) = compute_max_registers-Complete fl chunk sd verified in
        let returns =
          dispatch_loop-Returns false fuel (machine chunk sizes) (v.code, kind)
            (λ runs. entry-IsWellFormed sizes c) enough in
        let P : Verdict → Type 0 =
          λ verdict. Returns (start slot others chunk fuel (machine chunk sizes) verdict) in
        (machine chunk sizes, rw computed refl, subst P (sym verified) returns)

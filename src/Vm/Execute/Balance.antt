-- ===== src/Vm/Execute/Balance.antt =====
-- Calls and returns of vm/rust/lana-vm/src/vm.rs in pairs.
use lana.Prelude.{
  ℕ, suc, ◌<◌, ◌≤◌, true, List, [], ◌∷◌, length, get_elem?, set, some, ◌≡◌, ◌⊎◌, inl, inr, ok, refl,
  arith, subst, sym, ap, ◌∙◌,
}
use lana.Bytecode.Chunk.{Instruction, Chunk}
use lana.Vm.Values.{Value}
use lana.Vm.Machine.{Frame, Vm, Run}
use lana.Vm.Execute.{is_plain, call, execute}
use lana.Vm.Execute.Entry.{call-Entered}
use lana.Vm.Execute.Moves.{SameReturn, Moves, unchanged, stays, pushes, pops, execute-Moves}

-- A frame that returns to `ip`, into `register`, stands right above `base`, under the current
-- frame or as it.
abbrev pub Above : List Frame → ℕ → ℕ → List Frame → Type 0
Above base ip register [] = ⊥
Above base ip register (f ∷ fs) =
    ((fs ≡ base) × (f.return_ip ≡ ip) × (f.return_register ≡ register)) ⊎ Above base ip register fs

pub Above-length :
    (base : List Frame) (ip register : ℕ) (fs : List Frame)
    → Above base ip register fs
    → length base < length fs
Above-length base ip register [] h = absurd h
Above-length base ip register (f ∷ fs) (inl (e, _, _)) = omega (arith, ap length e)
Above-length base ip register (f ∷ fs) (inr h) = omega (arith, Above-length base ip register fs h)

Above-SameReturn :
    (base : List Frame) (ip register : ℕ) (f g : Frame) (fs : List Frame)
    → SameReturn f g
    → Above base ip register (f ∷ fs)
    → Above base ip register (g ∷ fs)
Above-SameReturn base ip register f g fs same (inl (e, at, into)) =
    inl (e, same.ip ∙ at, same.register ∙ into)
Above-SameReturn base ip register f g fs same (inr h) = inr h

-- The base is back on top, with a result in its register.
abbrev pub Returned : List Frame → ℕ → ℕ → Vm → Type 0
Returned base ip register after =
    (f : Frame) × (rest : List Frame) × (v : Value) × (base ≡ f ∷ rest)
    × (after.frames ≡ record f { registers = set f.registers register v } ∷ rest)
    × (after.ip ≡ ip)

-- A move from above the base stays above it, or returns to it.
pub move-Above :
    (base : List Frame) (ip register : ℕ) (vm after : Vm)
    → Moves vm after
    → Above base ip register vm.frames
    → Above base ip register after.frames ⊎ Returned base ip register after
move-Above base ip register vm after (unchanged e) h =
    inl (subst (Above base ip register) (sym e) h)
move-Above base ip register vm after (stays f g rest e e' same) h = inl (
    subst (Above base ip register) (sym e')
      (Above-SameReturn base ip register f g rest same (subst (Above base ip register) e h)))
move-Above base ip register vm after (pushes g e) h =
    inl (subst (Above base ip register) (sym e) (inr h))
move-Above base ip register vm after (pops f c rest v e e' at) h =
    elim (subst (Above base ip register) e h) [
      | inl (same, back, into) ↦ inr (
        c,
        rest,
        v,
        sym same,
        e' ∙ ap (λ r. record c { registers = set c.registers r v } ∷ rest) into,
        at ∙ back,
      )
      | inr more ↦ inl (
          subst (Above base ip register) (sym e') (
            Above-SameReturn base ip register c
              (record c { registers = set c.registers f.return_register v }) rest
              (record { ip = refl; register = refl }) more))
    ]

module _ (slot : ℕ) (others : Instruction → Vm → Run Vm) (chunk : Chunk) where
  -- Plain instructions, one after another, in frames above the first `depth`.
  pub data Within (depth : ℕ) (vm : Vm) : Vm → Type 0 where
    here : Within depth vm vm
    step :
        {m after : Vm} (i : Instruction)
        → Within depth vm m
        → get_elem? chunk.code m.ip ≡ some i
        → is_plain i.opcode ≡ true
        → execute slot others chunk i (record m { ip = suc m.ip }) ≡ ok after
        → depth < length after.frames
        → Within depth vm after

  Within-Above :
      (base : List Frame) (ip register : ℕ) {vm m : Vm}
      → Within (length base) vm m
      → Above base ip register vm.frames
      → Above base ip register m.frames
  Within-Above base ip register here h = h
  Within-Above base ip register (step {m = m} {after = after} i w at_ip p done deep) h =
      let moved = execute-Moves slot others chunk (record m { ip = suc m.ip }) after i p done in
      elim (move-Above base ip register (record m { ip = suc m.ip }) after moved
        (Within-Above base ip register w h)) [
          | inl still ↦ still
          | inr (f, rest, v, is_base, frames, _) ↦
              absurd (omega (arith, ap length is_base, ap length frames, deep))
        ]

  -- A call whose body runs through plain instructions and comes back to the depth of the caller
  -- has left the caller's frames as they were but for one register of the current one, that named
  -- by the CALL, and goes on where the machine stood.
  pub call-Returned :
      (c i : Instruction) (vm entered m after : Vm)
      → call slot chunk c vm ≡ ok entered
      → Within (length vm.frames) entered m
      → is_plain i.opcode ≡ true
      → execute slot others chunk i (record m { ip = suc m.ip }) ≡ ok after
      → length after.frames ≤ length vm.frames
      → Returned vm.frames vm.ip c.a after
  call-Returned c i vm entered m after called w p done back =
      let e = call-Entered slot chunk c vm entered called in
      let first : Above vm.frames vm.ip c.a entered.frames =
        subst (Above vm.frames vm.ip c.a) (sym e.frames)
          (inl (refl, e.return_ip, e.return_register)) in
      let moved = execute-Moves slot others chunk (record m { ip = suc m.ip }) after i p done in
      elim (move-Above vm.frames vm.ip c.a (record m { ip = suc m.ip }) after moved
        (Within-Above vm.frames vm.ip c.a w first)) [
          | inl above ↦
              absurd (omega (arith, Above-length vm.frames vm.ip c.a after.frames above, back))
          | inr returned ↦ returned
        ]

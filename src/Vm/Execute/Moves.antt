-- ===== src/Vm/Execute/Moves.antt =====
-- What the plain instructions of vm/rust/lana-vm/src/vm.rs do to the stack of frames.
use lana.Prelude.{
  Bool-cases, inl, inr, ltb, ◌&&◌, ℕ, Bool, true, false, not, List, [], ◌∷◌, get_elem?, set, some,
  none, ◌≡◌, ok, err, panic, refl, sym, ap, ◌∙◌, ◌>>=◌, >>=-eq-ok, or_panic, if◌then◌else◌,
}
use lana.Bytecode.Opcode.{OpCode}
use lana.Bytecode.Error.{LanaError}
use lana.Bytecode.Chunk.{Instruction, Chunk}
use lana.Vm.Values.{Value, ValueKind, plain, from_constant}
use lana.Vm.Machine.{Frame, Vm, Run, current_frame, with_current, store}
use lana.Vm.Execute.{
  write_register, read_register, load_const, move, load_function, jump, boolean, jump_if, resume,
  return, halt, is_halt, is_plain, execute_opcode, execute,
}
use lana.Vm.Execute.Registers.{with_current-eq}
use lana.Heap.State.{release}
use lana.Vm.Execute.Entry.{store-inv, call-Entered}

-- Where a frame returns to.
pub record SameReturn (f g : Frame) : Type 0 where
  pub ip : g.return_ip ≡ f.return_ip
  pub register : g.return_register ≡ f.return_register

pub data Moves (before after : Vm) : Type 0 where
  unchanged : after.frames ≡ before.frames → Moves before after
  stays :
      (f g : Frame) (rest : List Frame)
      → before.frames ≡ f ∷ rest
      → after.frames ≡ g ∷ rest
      → SameReturn f g
      → Moves before after
  pushes : (g : Frame) → after.frames ≡ g ∷ before.frames → Moves before after
  pops :
      (f c : Frame) (rest : List Frame) (v : Value)
      → before.frames ≡ f ∷ c ∷ rest
      → after.frames ≡ record c { registers = set c.registers f.return_register v } ∷ rest
      → after.ip ≡ f.return_ip
      → Moves before after

top-inv :
    (vm : Vm) (f : Frame) → current_frame vm ≡ ok f → (rest : List Frame) × (vm.frames ≡ f ∷ rest)
unfolding current_frame
top-inv vm f h = go vm.frames h
  where
    go :
        (fs : List Frame)
        → ◌≡◌ {A = Run Frame} (elim fs [ [] ↦ panic | frame ∷ _ ↦ ok frame ]) (ok f)
        → (rest : List Frame) × (fs ≡ f ∷ rest)
    go [] e = cc
    go (g ∷ rest) e = let same : g ≡ f = cc in (rest, ap (λ x. x ∷ rest) same)

-- The machine after a return to `c`.
abbrev resumed : Vm → Frame → Frame → List Frame → List Value → Vm
resumed vm f c rest registers = record vm {
  frames = record c { registers = registers } ∷ rest;
  heap = release vm.heap f.allocation;
  ip = f.return_ip;
}

module _ (vm after : Vm) where
  -- A frame that returns to the same place takes the place of the current one.
  put-Moves :
      (f g : Frame)
      → current_frame vm ≡ ok f
      → SameReturn f g
      → ◌≡◌ {A = Run Vm} (ok (with_current vm g)) (ok after)
      → Moves vm after
  put-Moves f g top same done =
      let (rest, e) = top-inv vm f top in
      let eq : with_current vm g ≡ after = cc in
      stays f g rest e (ap (λ m. m.frames) (sym eq ∙ with_current-eq vm f g rest e)) same

  write_register-Moves :
      (index : ℕ) (value : Value) → write_register vm index value ≡ ok after → Moves vm after
  unfolding write_register
  write_register-Moves index value h =
      let (f, top, h₁) = >>=-eq-ok (current_frame vm) _ h in
      let (registers, _, done) = >>=-eq-ok (store f.registers index value) _ h₁ in
      put-Moves f (record f { registers = registers }) top (record { ip = refl; register = refl })
        done

  load_const-Moves :
      (chunk : Chunk) (i : Instruction) → load_const chunk i vm ≡ ok after → Moves vm after
  unfolding load_const
  load_const-Moves chunk i h =
      let (constant, _, done) = >>=-eq-ok (or_panic (get_elem? chunk.constants i.imm)) _ h in
      write_register-Moves i.a (from_constant constant) done

  load_function-Moves : (i : Instruction) → load_function i vm ≡ ok after → Moves vm after
  unfolding load_function
  load_function-Moves i h = write_register-Moves i.a (plain (ValueKind.function i.b)) h

  move-Moves : (i : Instruction) → move i vm ≡ ok after → Moves vm after
  unfolding move
  move-Moves i h =
      let (f, top, h₁) = >>=-eq-ok (current_frame vm) _ h in
      let (value, _, h₂) = >>=-eq-ok (or_panic (get_elem? f.registers i.b)) _ h₁ in
      let (history, _, h₃) = >>=-eq-ok (or_panic (get_elem? f.histories i.b)) _ h₂ in
      let (registers, _, h₄) = >>=-eq-ok (store f.registers i.a value) _ h₃ in
      let (histories, _, done) = >>=-eq-ok (store f.histories i.a history) _ h₄ in
      put-Moves f (record f { registers = registers; histories = histories }) top
        (record { ip = refl; register = refl }) done

  jump_if-Moves : (sense : Bool) (i : Instruction) → jump_if sense i vm ≡ ok after → Moves vm after
  unfolding jump_if boolean
  jump_if-Moves sense i h =
      let (condition, _, h₁) = >>=-eq-ok (read_register vm i.a) _ h in go condition.kind h₁
    where
      same :
          (b : Bool)
          → ◌≡◌ {A = Run Vm} (ok (if b then record vm { ip = i.imm } else vm)) (ok after)
          → Moves vm after
      same true e =
          let eq : record vm { ip = i.imm } ≡ after = cc in unchanged (sym (ap (λ m. m.frames) eq))
      same false e = let eq : vm ≡ after = cc in unchanged (sym (ap (λ m. m.frames) eq))

      go :
          (kind : ValueKind)
          → ◌≡◌ {A = Run Vm}
              (elim (boolean kind) [
                | none ↦ err (record { code = LanaError.type; machine = vm })
                | some b ↦
                    ok (if (if sense then b else not b) then record vm { ip = i.imm } else vm)
              ])
              (ok after)
          → Moves vm after
      go (ValueKind.bool b) e = same (if sense then b else not b) e
      go _ e = cc

  -- The frame below gets the result.
  resume-Moves :
      (returned : Value) (f : Frame) (rest : List Frame)
      → vm.frames ≡ f ∷ rest
      → resume vm returned f rest ≡ ok after
      → Moves vm after
  unfolding resume
  resume-Moves returned f [] e h =
      let eq : record vm { result = returned; running = false } ≡ after = cc in
      unchanged (sym (ap (λ m. m.frames) eq))
  resume-Moves returned f (c ∷ rest) e h =
      let (registers, put, done) = >>=-eq-ok (store c.registers f.return_register returned) _ h in
      let (set_eq, _) = store-inv c.registers f.return_register returned put in
      let eq : resumed vm f c rest registers ≡ after = cc in
      pops f c rest returned e
        (sym (ap (λ m. m.frames) eq) ∙ ap (λ rs. record c { registers = rs } ∷ rest) set_eq)
        (sym (ap (λ m. m.ip) eq))

  return-Moves : (i : Instruction) → return i vm ≡ ok after → Moves vm after
  unfolding return
  return-Moves i h = go vm.frames refl h
    where
      go :
          (fs : List Frame)
          → vm.frames ≡ fs
          → ◌≡◌ {A = Run Vm}
              (elim fs [
                | [] ↦ panic
                | frame ∷ tail ↦ or_panic (get_elem? frame.registers i.a) >>= λ returned.
                    resume vm returned frame tail
              ])
              (ok after)
          → Moves vm after
      go [] e p = cc
      go (f ∷ rest) e p =
          let (returned, _, done) = >>=-eq-ok (or_panic (get_elem? f.registers i.a)) _ p in
          resume-Moves returned f rest e done

module _ (slot : ℕ) (others : Instruction → Vm → Run Vm) (chunk : Chunk) (vm after : Vm)
    (i : Instruction) where
  arm-Moves :
      (op : OpCode)
      → is_plain op ≡ true
      → execute_opcode slot others chunk op i vm ≡ ok after
      → Moves vm after
  unfolding is_plain execute_opcode jump halt
  arm-Moves OpCode.nop p h = let eq : vm ≡ after = cc in unchanged (sym (ap (λ m. m.frames) eq))
  arm-Moves OpCode.load_const p h = load_const-Moves vm after chunk i h
  arm-Moves OpCode.move p h = move-Moves vm after i h
  arm-Moves OpCode.load_function p h = load_function-Moves vm after i h
  arm-Moves OpCode.jump p h =
      let eq : record vm { ip = i.imm } ≡ after = cc in unchanged (sym (ap (λ m. m.frames) eq))
  arm-Moves OpCode.jump_if_true p h = jump_if-Moves vm after true i h
  arm-Moves OpCode.jump_if_false p h = jump_if-Moves vm after false i h
  arm-Moves OpCode.call p h =
      let entered = call-Entered slot chunk i vm after h in pushes entered.callee entered.frames
  arm-Moves OpCode.return p h = return-Moves vm after i h
  arm-Moves OpCode.halt p h =
      let eq : record vm { running = false } ≡ after = cc in unchanged (sym (ap (λ m. m.frames) eq))
  arm-Moves _ p h = absurd cc

  pub execute-Moves :
      is_plain i.opcode ≡ true → execute slot others chunk i vm ≡ ok after → Moves vm after
  unfolding execute
  execute-Moves p h = elim (Bool-cases (ltb 0 vm.pure_callback_depth && is_halt i.opcode)) [
    | inl refused ↦ absurd cc
    | inr allowed ↦ arm-Moves i.opcode p (rw allowed at h)
  ]

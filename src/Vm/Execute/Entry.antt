-- ===== src/Vm/Execute/Entry.antt =====
-- The frame that CALL of vm/rust/lana-vm/src/vm.rs pushes.
use lana.Prelude.{
  ℕ, zero, suc, ◌+◌, ◌*◌, ◌<◌, ◌≤◌, ◌^◌, Bool, true, false, ltb, ◌==◌, ==_iff, List, [], ◌∷◌,
  length, get_elem?, get_elem?-set, get_elem?-set_ne, replicate, set, some, ◌≡◌, ◌≢◌, ok, err,
  panic, refl, arith, subst, sym, ap, ◌∙◌, ◌>>=◌, >>=-eq-ok, or_panic, or_panic-eq-ok, require,
  require-eq-ok, if◌then◌else◌, ltb→lt,
}
use native.Mathlib.Decide.{ℕ_discrete}
use lana.Bytecode.Error.{LanaError}
use lana.Bytecode.Chunk.{Instruction, Function, Chunk}
use lana.Heap.State
use lana.Heap.State.{Admitted, reserve}
use lana.Vm.Values.{ValueKind, plain, no_history}
use lana.Vm.Machine.{Frame, Vm, Run, current_frame, new_frame, store, admitted, charged}
use lana.Vm.Execute.{max_call_frames, copy_arguments, push, call}

-- A run of elements of one list, copied over the same places of another.
pub record Copied {ℓ} {A : Type ℓ} (from : List A) (first index count : ℕ) (old new : List A)
    : Type ℓ where
  pub inside :
      (k : ℕ) → index ≤ k → k < index + count → get_elem? new k ≡ get_elem? from (first + k)
  pub below : (k : ℕ) → k < index → get_elem? new k ≡ get_elem? old k
  pub above : (k : ℕ) → index + count ≤ k → get_elem? new k ≡ get_elem? old k

module _ {ℓ} {A : Type ℓ} where
  pub store-inv :
      (xs : List A) (k : ℕ) (x : A) {ys : List A}
      → store xs k x ≡ ok ys
      → (ys ≡ set xs k x) × (k < length xs)
  unfolding store
  store-inv xs k x {ys = ys} h = go (ltb k (length xs)) refl h
    where
      go :
          (b : Bool)
          → ltb k (length xs) ≡ b
          → ◌≡◌ {A = Run (List A)} (if b then ok (set xs k x) else panic) (ok ys)
          → (ys ≡ set xs k x) × (k < length xs)
      go true e p = (cc, ltb→lt k (length xs) e)
      go false e p = cc

  Copied-none : (from : List A) (first index : ℕ) (old : List A) → Copied from first index 0 old old
  Copied-none from first index old = record {
    inside = λ k lo hi. absurd (omega arith);
    below = λ k h. refl;
    above = λ k h. refl;
  }

  -- One element is copied, and then the rest.
  Copied-suc :
      (from : List A) (first index count : ℕ) (old mid new : List A) (x : A)
      → get_elem? from (first + index) ≡ some x
      → store old index x ≡ ok mid
      → Copied from first (suc index) count mid new
      → Copied from first index (suc count) old new
  Copied-suc from first index count old mid new x found stored c =
      let (eq, small) = store-inv old index x stored in
      let other : (k : ℕ) → k ≢ index → get_elem? mid k ≡ get_elem? old k =
        λ k ne. ap (λ l. get_elem? l k) eq ∙ get_elem?-set_ne old index k x ne in
      let here : get_elem? mid index ≡ some x =
        ap (λ l. get_elem? l index) eq ∙ get_elem?-set old index x small in
      record {
        inside = λ k lo hi. elim (ℕ_discrete k index) [
          | yes e ↦
              ap (get_elem? new) e
              ∙ c.below index (omega arith)
              ∙ here
              ∙ sym found
              ∙ ap (λ j. get_elem? from (first + j)) (sym e)
          | no ne ↦ c.inside k (omega (arith, ne)) (omega arith)
        ];
        below = λ k h. c.below k (omega arith) ∙ other k (λ e. absurd (omega (arith, e)));
        above = λ k h. c.above k (omega arith) ∙ other k (λ e. absurd (omega (arith, e)));
      }

-- What the loop over the arguments does to the new frame.
pub record Filled (caller : Frame) (first index count : ℕ) (callee filled : Frame) : Type 0 where
  pub registers : Copied caller.registers first index count callee.registers filled.registers
  pub histories : Copied caller.histories first index count callee.histories filled.histories
  pub return_ip : filled.return_ip ≡ callee.return_ip
  pub return_register : filled.return_register ≡ callee.return_register
  pub function : filled.function ≡ callee.function

copy_arguments-Filled :
    (caller : Frame) (first index count : ℕ) (callee : Frame) {filled : Frame}
    → copy_arguments caller first index count callee ≡ ok filled
    → Filled caller first index count callee filled
unfolding copy_arguments
copy_arguments-Filled caller first index zero callee {filled = filled} h =
    let same : callee ≡ filled = cc in
    subst (Filled caller first index 0 callee) same (record {
      registers = Copied-none _ first index _;
      histories = Copied-none _ first index _;
      return_ip = refl;
      return_register = refl;
      function = refl;
    })
copy_arguments-Filled caller first index (suc count) callee h =
    let (value, at_r, h₁) = >>=-eq-ok (or_panic (get_elem? caller.registers (first + index))) _ h in
    let (registers, put_r, h₂) = >>=-eq-ok (store callee.registers index value) _ h₁ in
    let (history, at_h, h₃) =
      >>=-eq-ok (or_panic (get_elem? caller.histories (first + index))) _ h₂ in
    let (histories, put_h, h₄) = >>=-eq-ok (store callee.histories index history) _ h₃ in
    let more =
      copy_arguments-Filled caller first (suc index) count
        (record callee { registers = registers; histories = histories }) h₄ in
    record {
      registers =
          Copied-suc _ first index count _ registers _ value (or_panic-eq-ok _ at_r) put_r
            more.registers;
      histories =
          Copied-suc _ first index count _ histories _ history (or_panic-eq-ok _ at_h) put_h
            more.histories;
      return_ip = more.return_ip;
      return_register = more.return_register;
      function = more.function;
    }

abbrev with_frame : ℕ → Vm × ℕ → Run (Vm × Frame)
with_frame size (vm, bytes) = ok (vm, record (new_frame size) { allocation = bytes })

-- The machine and the frame that a charge gives.
charged-inv :
    (slot size : ℕ) (vm vm₁ : Vm) (blank : Frame)
    → charged slot vm size ≡ ok (vm₁, blank)
    → (heap : State.State) × (bytes : ℕ) × (vm₁ ≡ record vm { heap = heap })
      × (blank ≡ record (new_frame size) { allocation = bytes })
unfolding charged admitted
charged-inv slot size vm vm₁ blank h =
    let (_, _, h₁) =
      >>=-eq-ok
        (require (ltb (size * slot) (2 ^ 64)) (record { code = LanaError.oom; machine = vm })) _
        h in
    go (reserve vm.heap (size * slot)) h₁
  where
    go :
        (r : State.State × ℕ × Admitted)
        → (admitted vm r >>= with_frame size) ≡ ok (vm₁, blank)
        → (heap : State.State) × (bytes : ℕ) × (vm₁ ≡ record vm { heap = heap })
          × (blank ≡ record (new_frame size) { allocation = bytes })
    go (heap, bytes, ok _) e =
        let whole : Vm × Frame =
          (record vm { heap = heap }, record (new_frame size) { allocation = bytes }) in
        let pair : whole ≡ (vm₁, blank) = cc in
        (heap, bytes, sym (ap (λ p. p.0) pair), sym (ap (λ p. p.1) pair))
    go (heap, bytes, err code) e = cc
    go (heap, bytes, panic) e = cc

-- CALL has pushed a frame of the function's size for the function that it names: it holds the
-- arguments, and returns to the next instruction with the result in the register named.
pub record Entered (chunk : Chunk) (i : Instruction) (vm after : Vm) : Type 0 where
  pub g : Function
  pub f : Frame
  pub rest : List Frame
  pub callee : Frame
  pub size : ℕ
  pub named : get_elem? chunk.functions i.b ≡ some g
  pub arity : i.imm ≡ g.arity
  pub depth : length vm.frames < 64
  pub caller : vm.frames ≡ f ∷ rest
  pub sized : get_elem? vm.max_registers i.b ≡ some size
  pub frames : after.frames ≡ callee ∷ vm.frames
  pub ip : after.ip ≡ g.entry
  pub return_ip : callee.return_ip ≡ vm.ip
  pub return_register : callee.return_register ≡ i.a
  pub function : callee.function ≡ i.b
  pub registers :
      Copied f.registers i.c 0 i.imm (replicate size (plain ValueKind.null)) callee.registers
  pub histories : Copied f.histories i.c 0 i.imm (replicate size no_history) callee.histories

top-inv :
    (fs : List Frame) (f : Frame)
    → ◌≡◌ {A = Run Frame} (elim fs [ [] ↦ panic | frame ∷ _ ↦ ok frame ]) (ok f)
    → (rest : List Frame) × (fs ≡ f ∷ rest)
top-inv [] f e = cc
top-inv (g ∷ rest) f e = let same : g ≡ f = cc in (rest, ap (λ x. x ∷ rest) same)

pub call-Entered :
    (slot : ℕ) (chunk : Chunk) (i : Instruction) (vm after : Vm)
    → call slot chunk i vm ≡ ok after
    → Entered chunk i vm after
unfolding call current_frame push new_frame
call-Entered slot chunk i vm after h =
    let (g, at_g, h₁) = >>=-eq-ok (or_panic (get_elem? chunk.functions i.b)) _ h in
    let (_, arity, h₂) = >>=-eq-ok (require (i.imm == g.arity) _) _ h₁ in
    let (_, depth, h₃) = >>=-eq-ok (require (ltb (length vm.frames) max_call_frames) _) _ h₂ in
    let (size, at_size, h₄) = >>=-eq-ok (or_panic (get_elem? vm.max_registers i.b)) _ h₃ in
    let ((vm₁, blank), paid, h₅) = >>=-eq-ok (charged slot vm size) _ h₄ in
    let (heap, bytes, same, new) = charged-inv slot size vm vm₁ blank paid in
    let (f, top, h₆) = >>=-eq-ok (current_frame vm₁) _ h₅ in
    let start = record blank { return_ip = vm.ip; return_register = i.a; function = i.b } in
    let (filled, done, h₇) = >>=-eq-ok (copy_arguments f i.c 0 i.imm start) _ h₆ in
    let fill = copy_arguments-Filled f i.c 0 i.imm start done in
    let pushed : push vm₁ g.entry filled ≡ after = cc in
    let (rest, stack) = top-inv vm₁.frames f top in
    record {
      g = g;
      f = f;
      rest = rest;
      callee = filled;
      size = size;
      named = or_panic-eq-ok _ at_g;
      arity = (==_iff i.imm g.arity).0 (require-eq-ok _ _ arity);
      depth = ltb→lt _ _ (require-eq-ok _ _ depth);
      caller = sym (ap (λ m. m.frames) same) ∙ stack;
      sized = or_panic-eq-ok _ at_size;
      frames = sym (ap (λ m. m.frames) pushed) ∙ ap (λ m. filled ∷ m.frames) same;
      ip = sym (ap (λ m. m.ip) pushed);
      return_ip = fill.return_ip;
      return_register = fill.return_register;
      function = fill.function;
      registers =
          subst (λ b. Copied f.registers i.c 0 i.imm b.registers filled.registers) new
            fill.registers;
      histories =
          subst (λ b. Copied f.histories i.c 0 i.imm b.histories filled.histories) new
            fill.histories;
    }

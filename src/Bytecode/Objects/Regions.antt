-- ===== src/Bytecode/Objects/Regions.antt =====
-- Control flow in a function's region, for the second half of `verify` in
-- vm/rust/lana-bytecode/src/objects.rs.
use lana.Prelude.{
  ℕ, zero, suc, ◌+◌, ◌-◌, ◌<◌, ◌≤◌, true, false, not, ◌&&◌, ltb, leb, Option, some, get_elem?, ◌≡◌,
  ◌≢◌, sym, refl, ◌∙◌, ok, require, or_panic, map_err, >>=-eq-ok, or_panic-eq-ok, map_err-eq-ok,
  require-eq-ok, arith, subst,
}
use mathlib.Core.Option.{some-injective}
use native.Mathlib.Decide.{ℕ_discrete}
use lana.Bytecode.Opcode.{OpCode}
use lana.Bytecode.Chunk.{Chunk, Function, Instruction}
use lana.Bytecode.Objects.Declared.{Declared, check_instruction-Declared}
use lana.Bytecode.Objects.Members.{Descriptors, Owners}
use lana.Bytecode.Objects.Access.{
  ends_body, has_target, refers_to_function, is_owned, check_instruction, place, scan, check_region,
  last_before,
}

-- The opcodes that send control to the instruction named by `imm`.
pub data Branches : OpCode → Type 0 where
  jump : Branches OpCode.jump
  jump_if_true : Branches OpCode.jump_if_true
  jump_if_false : Branches OpCode.jump_if_false
  path_split : Branches OpCode.path_split
  adt_case : Branches OpCode.adt_case

-- One step of control inside a body: to the next instruction, unless the instruction is one of
-- RETURN, HALT and JUMP, or to the target of a jump or a branch.
pub data Flow (chunk : Chunk) (ip : ℕ) : ℕ → Type 0 where
  next :
      (i : Instruction)
      → get_elem? chunk.code ip ≡ some i
      → i.opcode ≢ OpCode.return
      → i.opcode ≢ OpCode.halt
      → i.opcode ≢ OpCode.jump
      → Flow chunk ip (suc ip)
  target :
      (i : Instruction) → get_elem? chunk.code ip ≡ some i → Branches i.opcode → Flow chunk ip i.imm

pub goes_on :
    (op : OpCode) → op ≢ OpCode.return → op ≢ OpCode.halt → op ≢ OpCode.jump → ends_body op ≡ false
unfolding ends_body
goes_on OpCode.return r h j = absurd (r refl)
goes_on OpCode.halt r h j = absurd (h refl)
goes_on OpCode.jump r h j = absurd (j refl)
goes_on _ r h j = refl

pub Branches-target : (op : OpCode) → Branches op → has_target op ≡ true
unfolding has_target
Branches-target _ jump = refl
Branches-target _ jump_if_true = refl
Branches-target _ jump_if_false = refl
Branches-target _ path_split = refl
Branches-target _ adt_case = refl

-- Steps from inside a region stay inside.
abbrev pub IsClosed : Chunk → ℕ → ℕ → Type 0
IsClosed chunk start end =
    (ip ip' : ℕ) → Flow chunk ip ip' → start ≤ ip → ip < end → (start ≤ ip') × (ip' < end)

module _ (chunk : Chunk) (ds : Descriptors) (owners : Owners) where
  -- Every instruction of the scanned range exists and passed its check.
  abbrev Checks : ℕ → Function → Option ℕ → ℕ → ℕ → ℕ → Type 0
  Checks fi f owner start end ip =
      (i : Instruction) × (get_elem? chunk.code ip ≡ some i)
      × (check_instruction ds owners fi f owner start end i ≡ ok tt)

  scan-step :
      (fi : ℕ) (f : Function) (owner : Option ℕ) (start end ip count : ℕ)
      → scan chunk ds owners fi f owner start end ip (suc count) ≡ ok tt
      → Checks fi f owner start end ip
        × (scan chunk ds owners fi f owner start end (suc ip) count ≡ ok tt)
  unfolding scan
  scan-step fi f owner start end ip count h =
      let (i, found, h₁) = >>=-eq-ok (or_panic (get_elem? chunk.code ip)) _ h in
      let (_, checked, h₂) =
        >>=-eq-ok (map_err (place ip i) (check_instruction ds owners fi f owner start end i)) _
          h₁ in
      ((i, or_panic-eq-ok (get_elem? chunk.code ip) found, map_err-eq-ok _ _ checked), h₂)

  scan_sound :
      (fi : ℕ) (f : Function) (owner : Option ℕ) (start end ip count : ℕ)
      → scan chunk ds owners fi f owner start end ip count ≡ ok tt
      → (k : ℕ) → ip ≤ k
      → k < ip + count
      → Checks fi f owner start end k
  scan_sound fi f owner start end ip zero h k lo hi = absurd (omega arith)
  scan_sound fi f owner start end ip (suc count) h k lo hi =
      let (here, rest) = scan-step fi f owner start end ip count h in
      let later = scan_sound fi f owner start end (suc ip) count rest k in
      elim (ℕ_discrete ip k) [
        | yes e ↦ subst (λ j. Checks fi f owner start end j) e here
        | no ne ↦ later (omega arith) (omega arith)
      ]

  check_region_sound :
      (fi : ℕ) (f : Function) (start end : ℕ)
      → check_region chunk ds owners fi f start end ≡ ok tt
      → (owner : Option ℕ) × (last : Instruction) × (last_before chunk.code end ≡ ok last)
        × (ends_body last.opcode ≡ true)
        × (scan chunk ds owners fi f owner start end start (end - start) ≡ ok tt)
  unfolding check_region
  check_region_sound fi f start end h =
      let (owner, _, h₁) = >>=-eq-ok (or_panic (get_elem? owners fi)) _ h in
      let (last, found, h₂) = >>=-eq-ok (last_before chunk.code end) _ h₁ in
      let (_, ends, h₃) = >>=-eq-ok (require (ends_body last.opcode) _) _ h₂ in
      (owner, last, found, require-eq-ok _ _ ends, h₃)

  target_inside :
      (fi : ℕ) (f : Function) (owner : Option ℕ) (start end : ℕ) (i : Instruction)
      → check_instruction ds owners fi f owner start end i ≡ ok tt
      → has_target i.opcode ≡ true
      → (start ≤ i.imm) × (i.imm < end)
  unfolding check_instruction
  target_inside fi f owner start end i h t =
      let (_, _, h₁) =
        >>=-eq-ok (require (not (refers_to_function i.opcode && is_owned owners i.b)) _) _ h in
      let (_, inside, _) =
        >>=-eq-ok (require (not (has_target i.opcode && not (leb start i.imm && ltb i.imm end))) _)
          _ h₁ in
      let inside' =
        require-eq-ok (not (has_target i.opcode && not (leb start i.imm && ltb i.imm end))) _
          inside in
      ground (arith, inside')

  -- The instruction before the end of a region that passed does not go on.
  not_last :
      (end ip : ℕ) (i last : Instruction)
      → last_before chunk.code end ≡ ok last
      → ends_body last.opcode ≡ true
      → get_elem? chunk.code ip ≡ some i
      → ends_body i.opcode ≡ false
      → end ≢ suc ip
  unfolding last_before
  not_last zero ip i last found ends here goes e = absurd (omega arith)
  not_last (suc e) ip i last found ends here goes eq =
      let same : e ≡ ip = omega arith in
      let at_e = or_panic-eq-ok (get_elem? chunk.code e) found in
      let at_ip = subst (λ k. get_elem? chunk.code k ≡ some last) same at_e in ground (arith, at_ip)

  Flow-inside :
      (fi : ℕ) (f : Function) (owner : Option ℕ) (start end : ℕ) (last : Instruction) {ip ip' : ℕ}
      → last_before chunk.code end ≡ ok last
      → ends_body last.opcode ≡ true
      → Checks fi f owner start end ip
      → start ≤ ip
      → ip < end
      → Flow chunk ip ip'
      → (start ≤ ip') × (ip' < end)
  Flow-inside fi f owner start end last {ip = ip} found ends checks lo hi (next i here r h j) =
      omega (arith, not_last end ip i last found ends here (goes_on i.opcode r h j))
  Flow-inside fi f owner start end last found ends (i', here', passed) lo hi (target i here t) =
      let same : i' ≡ i = some-injective _ _ (sym here' ∙ here) in
      target_inside fi f owner start end i
        (subst (λ j. check_instruction ds owners fi f owner start end j ≡ ok tt) same passed)
        (Branches-target i.opcode t)

  -- The instructions of a region that passed name registers that its function declares.
  pub check_region-Declared :
      (fi : ℕ) (f : Function) (start end : ℕ)
      → check_region chunk ds owners fi f start end ≡ ok tt
      → (ip : ℕ) (i : Instruction) → start ≤ ip
      → ip < end
      → get_elem? chunk.code ip ≡ some i
      → Declared i.opcode f.register_count i
  check_region-Declared fi f start end h ip i lo hi at_ip =
      let (owner, _, _, _, scanned) = check_region_sound fi f start end h in
      let (i', at_ip', passed) =
        scan_sound fi f owner start end start (end - start) scanned ip lo (omega arith) in
      let same : i' ≡ i = some-injective _ _ (sym at_ip' ∙ at_ip) in
      subst (λ j. Declared j.opcode f.register_count j) same
        (check_instruction-Declared ds owners fi f owner start end i' passed)

  -- A region that passed is closed: its last instruction does not go on, and its targets lie in it.
  pub check_region-IsClosed :
      (fi : ℕ) (f : Function) (start end : ℕ)
      → check_region chunk ds owners fi f start end ≡ ok tt
      → IsClosed chunk start end
  check_region-IsClosed fi f start end h ip ip' step lo hi =
      let (owner, last, found, ends, scanned) = check_region_sound fi f start end h in
      let checks =
        scan_sound fi f owner start end start (end - start) scanned ip lo (omega arith) in
      Flow-inside fi f owner start end last found ends checks lo hi step

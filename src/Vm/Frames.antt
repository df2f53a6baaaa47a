-- ===== src/Vm/Frames.antt =====
-- `compute_max_registers` of vm/rust/lana-vm/src/vm.rs: the size of the register file of each
-- function. A sort by entry keeps the order of the functions, as the sort of the pairs of entry
-- and index does.
pub mod Scan
pub mod Regions
pub mod Sizes
pub mod Rooms
pub mod Named
use lana.Prelude.{
  ℕ, zero, suc, ◌+◌, ◌-◌, Bool, true, false, not, ◌&&◌, ◌||◌, ltb, leb, ◌==◌, if◌then◌else◌, min,
  max, List, [], ◌∷◌, length, get_elem?, take, drop, replicate, set, Result, ok, panic, ◌>>=◌,
  or_panic,
}
use lana.Bytecode.Opcode.{OpCode, max_registers}
use lana.Bytecode.Error.{LanaError}
use lana.Bytecode.Chunk.{Instruction, Function, Chunk}
use lana.Bytecode.Objects.Access.{Entry, enumerate, sort_entries, region_end, has_target, ends_body}
use lana.Vm.Registers.{instruction_max_register}

abbrev pub Sizes : Type 0
Sizes = Result LanaError (List ℕ)

-- `&code[start..end]`
unfoldable pub slice : List Instruction → ℕ → ℕ → Result LanaError (List Instruction)
slice code start end =
    if leb start end && leb end (length code)
    then ok (take (end - start) (drop start code))
    else panic

-- `code.last().is_none_or(|ins| !matches!(ins.opcode, Return | Halt | Jump))`
unfoldable pub falls_through : List Instruction → Bool
falls_through [] = true
falls_through (i ∷ []) = not (ends_body i.opcode)
falls_through (_ ∷ i ∷ code) = falls_through (i ∷ code)

-- A target outside `start..end`.
abbrev pub leaves : ℕ → ℕ → Instruction → Bool
leaves start end i = has_target i.opcode && not (leb start i.imm && ltb i.imm end)

unfoldable pub some_leaves : ℕ → ℕ → List Instruction → Bool
some_leaves start end [] = false
some_leaves start end (i ∷ code) = leaves start end i || some_leaves start end code

unfoldable pub escapes : ℕ → ℕ → List Instruction → Bool
escapes start end code = falls_through code || some_leaves start end code

-- The loop `max = max.max(instruction_max_register(ins))`
unfoldable pub code_max : ℕ → List Instruction → ℕ
code_max m [] = m
code_max m (i ∷ code) = code_max (max m (instruction_max_register i)) code

unfoldable pub needed : Function → List Instruction → ℕ
needed f code = max (code_max 0 code + 1) f.arity

unfoldable pub frame_size : Chunk → Function → ℕ → List Instruction → ℕ
unfolding escapes needed
frame_size chunk f end code =
    if escapes f.entry end code
    then max_registers
    else if chunk.version == 6
    then min (max (needed f code) f.register_count) max_registers
    else min (needed f code) max_registers

-- `result[index] = size`
unfoldable pub put : List ℕ → ℕ → ℕ → Sizes
put result index size = if ltb index (length result) then ok (set result index size) else panic

-- The loop over the sorted entries.
unfoldable pub regions : Chunk → List Entry → List ℕ → Sizes
unfolding put slice frame_size
regions chunk [] result = ok result
regions chunk ((index, f) ∷ rest) result = do
  code ← slice chunk.code f.entry (region_end chunk rest)
  stored ← put result index (frame_size chunk f (region_end chunk rest) code)
  regions chunk rest stored

-- `result[index] = result[index].max((functions[index].arity + 1).min(256))`
unfoldable pub make_room : Chunk → ℕ → List ℕ → Sizes
unfolding put
make_room chunk index result = do
  size ← or_panic (get_elem? result index)
  f ← or_panic (get_elem? chunk.functions index)
  put result index (max size (min (f.arity + 1) max_registers))

-- `matches!(ins.opcode, Generator | Async)`
unfoldable pub suspends : OpCode → Bool
suspends OpCode.generator = true
suspends OpCode.async = true
suspends _ = false

-- The loop over the instructions.
unfoldable pub rooms : Chunk → List Instruction → List ℕ → Sizes
unfolding make_room suspends
rooms chunk [] result = ok result
rooms chunk (i ∷ code) result = do
  grown ← if suspends i.opcode then make_room chunk i.b result else ok result
  rooms chunk code grown

unfoldable pub compute_max_registers : Chunk → Sizes
unfolding regions rooms
compute_max_registers chunk = do
  result ←
      regions chunk (sort_entries (enumerate 0 chunk.functions))
        (replicate (length chunk.functions) 0)
  rooms chunk chunk.code result

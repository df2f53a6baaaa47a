-- ===== src/Bytecode/Opcode/Codes.antt =====
-- The opcode byte and the opcode, `try_from` of vm/rust/lana-bytecode/src/opcode.rs.
use lana.Prelude.{
  ℕ, zero, suc, ◌+◌, Bool, true, ◌&&◌, ◌==◌, List, [], ◌∷◌, length, ◌≡◌, ◌<◌, ◌↔◌, refl, subst,
  some, arith, get_elem?,
}
use lana.Bytecode.Opcode.{OpCode, discriminant, try_from, opcodes}

pub try_from-discriminant :
    (op : OpCode) → discriminant op < 90 → try_from (discriminant op) ≡ some op
unfolding try_from discriminant
try_from-discriminant OpCode.nop h = refl
try_from-discriminant OpCode.count h = absurd (omega arith)
try_from-discriminant _ h = refl

-- The opcodes of a list have the numbers from `k` on.
numbered : ℕ → List OpCode → Bool
numbered k [] = true
numbered k (op ∷ ops) = discriminant op == k && numbered (suc k) ops

numbered_sound :
    (k b : ℕ) (ops : List OpCode) (op : OpCode)
    → numbered k ops ≡ true
    → get_elem? ops b ≡ some op
    → (discriminant op ≡ k + b) × (b < length ops)
unfolding numbered
numbered_sound k b [] op h e = cc
numbered_sound k zero (x ∷ ops) op h e = ground arith
numbered_sound k (suc b) (x ∷ ops) op h e = ground (arith, numbered_sound (suc k) b ops op)

opcodes-numbered : numbered 0 opcodes ≡ true
unfolding numbered discriminant
opcodes-numbered = refl

discriminant-try_from :
    (b : ℕ) (op : OpCode) → try_from b ≡ some op → (discriminant op ≡ b) × (b < 90)
unfolding try_from
discriminant-try_from b op h = omega (arith, numbered_sound 0 b opcodes op opcodes-numbered h)

-- A byte converts to an opcode exactly if it is below the sentinel and the opcode's own number.
pub try_from_iff :
    (b : ℕ) (op : OpCode) → (try_from b ≡ some op) ↔ ((discriminant op ≡ b) × (b < 90))
try_from_iff b op = (
  discriminant-try_from b op,
  λ h. subst (λ n. try_from n ≡ some op) h.0 (try_from-discriminant op (omega arith)),
)

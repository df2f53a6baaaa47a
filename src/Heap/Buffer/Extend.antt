-- ===== src/Heap/Buffer/Extend.antt =====
-- Proofs on `push` and `extend_from_slice` of `Buffer` in vm/rust/lana-vm/src/heap.rs.
use lana.Prelude.{
  ℕ, ◌+◌, Bool, length-append, List, [], ◌∷◌, ◌++◌, ok, err, panic, length, ◌≡◌, ◌⊎◌, inl, inr,
  refl, ap, arith,
}
use lana.Bytecode.Error.{LanaError}
use lana.Heap.State.{State}
use lana.Heap.Balance.{Fits}
use lana.Heap.Buffer.{Buffer, Answer, append, reserve_more, push, extend_from_slice}
use lana.Heap.Buffer.Growth.{IsCharged, Grown, reserve_more-Grown}

module _ {ℓ} {A : Type ℓ} (size : ℕ) (granted : ℕ → Bool) where
  -- The books balance after an extension of `b` by `xs`, which has appended them to its contents,
  -- or else has left the buffer as it was.
  abbrev pub Extended : ℕ → Buffer A → List A → Answer A → Type ℓ
  Extended rest b xs (s', b', answer) =
      Fits s' (rest + b'.bytes)
      × (((answer ≡ ok tt) × IsCharged size b' × (b'.values ≡ b.values ++ xs))
          ⊎ ((answer ≡ err LanaError.oom) × (b' ≡ b)))

  append-Extended :
      (rest : ℕ) (b : Buffer A) (xs : List A) (answer : Answer A)
      → Grown size rest b (length b.values + length xs) answer
      → Extended rest b xs (append xs answer)
  unfolding append
  append-Extended rest b xs (s, b', ok _) (w, inl (h, c, same, enough)) =
      let measured : length (b'.values ++ xs) ≡ length b'.values + length xs =
        length-append b'.values xs in
      let kept : length b'.values ≡ length b.values = ap length same in
      (
        w,
        inl (
          refl,
          record { room = omega (arith, measured, kept); charged = c.charged },
          ap (λ ys. ys ++ xs) same,
        ),
      )
  append-Extended rest b xs (s, b', ok _) (w, inr (h, same)) = cc
  append-Extended rest b xs (s, b', err _) (w, inl (h, c, same, enough)) = cc
  append-Extended rest b xs (s, b', err _) (w, inr (h, same)) = (w, inr (h, same))
  append-Extended rest b xs (s, b', panic) (w, inl (h, c, same, enough)) = cc
  append-Extended rest b xs (s, b', panic) (w, inr (h, same)) = cc

  -- On balanced books and a charged buffer, `push` and `extend_from_slice` either append to the
  -- contents, with the new capacity charged, or fail with `Oom` and leave the buffer as it was;
  -- the books balance in both cases.
  pub extend-Extended :
      (rest : ℕ) (b : Buffer A) (s : State)
      → IsCharged size b
      → Fits s (rest + b.bytes)
      → ((x : A) → Extended rest b (x ∷ []) (push size granted x b s))
        × ((xs : List A) → Extended rest b xs (extend_from_slice size granted xs b s))
  unfolding push extend_from_slice
  extend-Extended rest b s c w = (
    λ x.
        append-Extended rest b (x ∷ []) (reserve_more size granted 1 b s)
          (reserve_more-Grown size granted rest 1 b s c w),
    λ xs.
        append-Extended rest b xs (reserve_more size granted (length xs) b s)
          (reserve_more-Grown size granted rest (length xs) b s c w),
  )

-- ===== src/Runtime/Payload/Building.antt =====
-- Proofs on `build_payload` of runtime/rust/lana-runtime/src/store.rs.
use mathlib.Core.List.{append_assoc, append-nil}
use lana.Prelude.{
  ap, ℕ, ◌+◌, ◌-◌, ◌^◌, ◌<◌, ◌≤◌, leb, leb→le, List, [], ◌∷◌, ◌++◌, length, length-append, All, ok,
  panic, require, >>=-eq-ok, require-eq-ok, ◌≡◌, ◌≢◌, sym, subst, ◌∙◌, arith, Bool-cases, inl, inr,
}
use lana.Bytecode.Error.{LanaError}
use lana.Bytecode.Loader.{Utf8}
use lana.Bytecode.Encoder.{encode_all}
use lana.Runtime.Payload.{
  Mutation, added_bytes, mutation_bytes, build_from, build_payload, parse_payload, store_limit,
}
use lana.Runtime.Payload.Parsing.{
  IsClean, FitsMutation, length-mutation_bytes, parse_payload-encoded,
}

build_from-eq-ok :
    (before : List ℕ) (ms : List Mutation) (payload : List ℕ)
    → length before ≤ store_limit
    → build_from before ms ≡ ok payload
    → (payload ≡ before ++ encode_all mutation_bytes ms) × (length payload ≤ store_limit)
unfolding build_from encode_all
build_from-eq-ok before [] payload short h =
    let same : before ≡ payload = cc in
    (sym same ∙ sym (append-nil before), subst (λ l. length l ≤ store_limit) same short)
build_from-eq-ok before (m ∷ ms) payload short h =
    let (_, _, h₁) = >>=-eq-ok (require (leb (length m.key) (2 ^ 32 - 1)) LanaError.limit) _ h in
    let (_, fits, h₂) =
      >>=-eq-ok (require (leb (length before + added_bytes m) store_limit) LanaError.limit) _ h₁ in
    let room = leb→le _ _ (require-eq-ok _ _ fits) in
    let size = length-mutation_bytes m in
    let (e, limit) =
      build_from-eq-ok (before ++ mutation_bytes m) ms payload
        (omega (arith, length-append before (mutation_bytes m), size, room)) h₂ in
    (e ∙ append_assoc before (mutation_bytes m) (encode_all mutation_bytes ms), limit)

pub build_payload-eq-ok :
    (ms : List Mutation) (payload : List ℕ)
    → build_payload ms ≡ ok payload
    → (payload ≡ encode_all mutation_bytes ms) × (length payload ≤ store_limit)
unfolding build_payload
build_payload-eq-ok ms payload h = build_from-eq-ok [] ms payload (omega arith) h

build_from-ne-panic : (before : List ℕ) (ms : List Mutation) → build_from before ms ≢ panic
unfolding build_from
build_from-ne-panic before [] h = cc
build_from-ne-panic before (m ∷ ms) h =
    let rest = build_from-ne-panic (before ++ mutation_bytes m) ms in
    elim (Bool-cases (leb (length m.key) (2 ^ 32 - 1))) [
      | inr long ↦ let e = rw long at h in cc
      | inl short ↦ elim (Bool-cases (leb (length before + added_bytes m) store_limit)) [
        | inr full ↦ let e = rw (short, full) at h in cc
        | inl room ↦ rest (rw (short, room) at h)
      ]
    ]

pub build_payload-ne-panic : (ms : List Mutation) → build_payload ms ≢ panic
unfolding build_payload
build_payload-ne-panic ms = build_from-ne-panic [] ms

build_from-Fits :
    (u : Utf8) (before : List ℕ) (ms : List Mutation) (payload : List ℕ)
    → All (IsClean u) ms
    → build_from before ms ≡ ok payload
    → All (FitsMutation u) ms
unfolding build_from
build_from-Fits u before [] payload c h = tt
build_from-Fits u before (m ∷ ms) payload (c, cs) h =
    let (_, narrow, h₁) =
      >>=-eq-ok (require (leb (length m.key) (2 ^ 32 - 1)) LanaError.limit) _ h in
    let (_, fits, h₂) =
      >>=-eq-ok (require (leb (length before + added_bytes m) store_limit) LanaError.limit) _ h₁ in
    let key = leb→le _ _ (require-eq-ok _ _ narrow) in
    let room = leb→le _ _ (require-eq-ok _ _ fits) in
    (
      record { clean = c; key_short = omega (arith, key); value_short = omega (arith, room) },
      build_from-Fits u (before ++ mutation_bytes m) ms payload cs h₂,
    )

length-encode_all : (ms : List Mutation) → length ms ≤ length (encode_all mutation_bytes ms)
unfolding encode_all mutation_bytes
length-encode_all [] = omega arith
length-encode_all (m ∷ ms) =
    omega
      (arith, length-append (mutation_bytes m) (encode_all mutation_bytes ms), length-encode_all ms)

-- Lengths need no check before: what is too long is not built.
pub build_payload-Fits :
    (u : Utf8) (ms : List Mutation) (payload : List ℕ)
    → All (IsClean u) ms
    → build_payload ms ≡ ok payload
    → All (FitsMutation u) ms × (length ms < 2 ^ 32)
unfolding build_payload
build_payload-Fits u ms payload c h =
    let (e, limit) = build_payload-eq-ok ms payload h in
    (build_from-Fits u [] ms payload c h, omega (arith, ap length e, limit, length-encode_all ms))

-- A payload that `build_payload` writes for clean mutations is within the limit, and
-- `parse_payload` reads the same mutations from it.
pub parse_payload-build_payload :
    (u : Utf8) (ms : List Mutation) (payload : List ℕ)
    → All (IsClean u) ms
    → build_payload ms ≡ ok payload
    → (parse_payload u payload (length ms) ≡ ok ms) × (length payload ≤ store_limit)
parse_payload-build_payload u ms payload f h =
    let (e, limit) = build_payload-eq-ok ms payload h in
    (
      subst (λ l. parse_payload u l (length ms) ≡ ok ms) (sym e)
          (parse_payload-encoded u ms (build_payload-Fits u ms payload f h).0),
      limit,
    )

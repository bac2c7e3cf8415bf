-- ===== src/Utf8/Correct.antt =====
-- The validator decides well-formedness.
use rabbitmq_ai.Common.{
  ℕ, zero, suc, ◌≤◌, ◌≡◌, ◌↔◌, refl, ◌∙◌, subst, inl, inr, true, some, List, [], ◌∷◌, arith, Bytes,
  length, length-append, All, All-append_right, IsByte, Option-cases,
}
use rabbitmq_ai.Utf8.{utf8_step, utf8_loop, is_valid_utf8}
use rabbitmq_ai.Utf8.Spec.{IsScalar, encode_scalar, encode_scalars}
use rabbitmq_ai.Utf8.Step.{Splits, utf8_step-Splits, utf8_step-encode_scalar}

-- The bytes are the encoding of some scalar values.
abbrev pub IsUtf8 : Bytes → Type 0
IsUtf8 bs = (cps : List ℕ) × All IsScalar cps × (encode_scalars cps ≡ bs)

IsUtf8-cons : (bs rest : Bytes) → Splits bs rest → IsUtf8 rest → IsUtf8 bs
unfolding encode_scalars
IsUtf8-cons bs rest (cp, s, e) (cps, ss, es) = (cp ∷ cps, (s, ss), rw (es, e) refl)

utf8_loop-IsUtf8 : (fuel : ℕ) (bs : Bytes) → All IsByte bs → utf8_loop fuel bs ≡ true → IsUtf8 bs
unfolding utf8_loop
utf8_loop-IsUtf8 fuel [] b h = ([], tt, unfold encode_scalars in refl)
utf8_loop-IsUtf8 zero (x ∷ xs) b h = cc
utf8_loop-IsUtf8 (suc fuel) (x ∷ xs) b h = elim (Option-cases (utf8_step x xs)) [
  | inl e ↦ cc (h, e)
  | inr (rest, e) ↦
      let split = utf8_step-Splits x xs rest b.0 b.1 e in
      let inside : All IsByte rest =
        All-append_right IsByte (encode_scalar split.0) rest (subst (All IsByte) split.2 b) in
      IsUtf8-cons (x ∷ xs) rest split (utf8_loop-IsUtf8 fuel rest inside (rw (e, utf8_loop) at h))
]

utf8_loop_step :
    (fuel : ℕ) (bs rest : Bytes) (x : ℕ) (xs : Bytes)
    → bs ≡ x ∷ xs
    → utf8_step x xs ≡ some rest
    → utf8_loop (suc fuel) bs ≡ utf8_loop fuel rest
unfolding utf8_loop
utf8_loop_step fuel bs rest x xs e s = rw (e, s, utf8_loop) refl

length-encode_scalar : (cp : ℕ) → 1 ≤ length (encode_scalar cp)
unfolding encode_scalar
length-encode_scalar cp = ground arith

utf8_loop-encode_scalars :
    (cps : List ℕ) (fuel : ℕ)
    → All IsScalar cps
    → length (encode_scalars cps) ≤ fuel
    → utf8_loop fuel (encode_scalars cps) ≡ true
unfolding encode_scalars
utf8_loop-encode_scalars [] fuel s h = unfold utf8_loop in refl
utf8_loop-encode_scalars (cp ∷ cps) zero s h =
    absurd (
      omega (arith, length-append (encode_scalar cp) (encode_scalars cps), length-encode_scalar cp))
utf8_loop-encode_scalars (cp ∷ cps) (suc fuel) s h =
    let (x, xs, e, q) = utf8_step-encode_scalar cp (encode_scalars cps) s.0 in
    utf8_loop_step fuel _ (encode_scalars cps) x xs e q
    ∙ utf8_loop-encode_scalars cps fuel s.1 (
        omega
          (arith, length-append (encode_scalar cp) (encode_scalars cps), length-encode_scalar cp))

-- On a byte string the validator answers true exactly when the bytes are the encoding of a sequence
-- of Unicode scalar values: no overlong form, no surrogate, nothing above U+10FFFF, nothing cut.
pub is_valid_utf8_iff : (bs : Bytes) → All IsByte bs → (is_valid_utf8 bs ≡ true) ↔ IsUtf8 bs
unfolding is_valid_utf8
is_valid_utf8_iff bs b = (
  utf8_loop-IsUtf8 (length bs) bs b,
  λ u.
      let (cps, s, e) = u in
      subst (λ x. utf8_loop (length x) x ≡ true) e (utf8_loop-encode_scalars cps _ s (omega arith)),
)

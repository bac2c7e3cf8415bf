-- ===== src/Utf8/Step.antt =====
-- One round of the validator accepts exactly one encoded scalar value.
use rabbitmq_ai.Common.{
  ℕ, ◌+◌, ◌/◌, ◌%◌, ◌<◌, ◌≤◌, ◌≡◌, inl, inr, some, [], ◌∷◌, ◌++◌, ◌==◌, arith, Bytes, All, IsByte,
  Bool-cases, lt_or_le, subst,
}
use rabbitmq_ai.Utf8.{two_bytes, three_bytes, four_bytes, utf8_step}
use rabbitmq_ai.Utf8.Spec.{IsScalar, encode_scalar}
use rabbitmq_ai.Utf8.Masks.{
  not_continuation_lem, lead_two, lead_three, lead_four, point2, point3, point4, point2_lem,
  point3_lem, point4_lem,
}

-- `rest` follows an encoded scalar value in `bs`.
abbrev pub Splits : Bytes → Bytes → Type 0
Splits bs rest = (cp : ℕ) × IsScalar cp × (bs ≡ encode_scalar cp ++ rest)

two_bytes-Splits :
    (b0 : ℕ) (bs rest : Bytes)
    → b0 / 32 ≡ 6
    → All IsByte bs
    → two_bytes b0 bs ≡ some rest
    → Splits (b0 ∷ bs) rest
unfolding two_bytes encode_scalar
two_bytes-Splits b0 [] rest h b e = cc
two_bytes-Splits b0 (b1 ∷ bs) rest h b e = (
  point2 b0 b1,
  ground (arith, point2_lem b0 b1),
  ground (arith, point2_lem b0 b1, not_continuation_lem b1 b.0),
)

three_bytes-Splits :
    (b0 : ℕ) (bs rest : Bytes)
    → b0 / 16 ≡ 14
    → All IsByte bs
    → three_bytes b0 bs ≡ some rest
    → Splits (b0 ∷ bs) rest
unfolding three_bytes encode_scalar
three_bytes-Splits b0 [] rest h b e = cc
three_bytes-Splits b0 (b1 ∷ []) rest h b e = cc
three_bytes-Splits b0 (b1 ∷ b2 ∷ bs) rest h b e = (
  point3 b0 b1 b2,
  ground (arith, point3_lem b0 b1 b2),
  ground (arith, point3_lem b0 b1 b2, not_continuation_lem b1 b.0, not_continuation_lem b2 b.1.0),
)

four_bytes-Splits :
    (b0 : ℕ) (bs rest : Bytes)
    → b0 / 8 ≡ 30
    → All IsByte bs
    → four_bytes b0 bs ≡ some rest
    → Splits (b0 ∷ bs) rest
unfolding four_bytes encode_scalar
four_bytes-Splits b0 [] rest h b e = cc
four_bytes-Splits b0 (b1 ∷ []) rest h b e = cc
four_bytes-Splits b0 (b1 ∷ b2 ∷ []) rest h b e = cc
four_bytes-Splits b0 (b1 ∷ b2 ∷ b3 ∷ bs) rest h b e = (
  point4 b0 b1 b2 b3,
  ground (arith, point4_lem b0 b1 b2 b3),
  ground (
    arith,
    point4_lem b0 b1 b2 b3,
    not_continuation_lem b1 b.0,
    not_continuation_lem b2 b.1.0,
    not_continuation_lem b3 b.1.1.0,
  ),
)

one_byte-Splits : (b0 : ℕ) (bs : Bytes) → b0 < 0x80 → Splits (b0 ∷ bs) bs
unfolding encode_scalar
one_byte-Splits b0 bs h = (b0, inl (omega arith), ground arith)

pub utf8_step-Splits :
    (b0 : ℕ) (bs rest : Bytes)
    → IsByte b0
    → All IsByte bs
    → utf8_step b0 bs ≡ some rest
    → Splits (b0 ∷ bs) rest
unfolding utf8_step
utf8_step-Splits b0 bs rest h b e = elim (lt_or_le b0 0x80) [
  | inl one ↦
      let same : bs ≡ rest = ground arith in
      subst (Splits (b0 ∷ bs)) same (one_byte-Splits b0 bs one)
  | inr big ↦ elim (Bool-cases (b0 / 32 == 6)) [
    | inl two ↦ two_bytes-Splits b0 bs rest (ground arith) b (ground (arith, lead_two b0 h))
    | inr not_two ↦ elim (Bool-cases (b0 / 16 == 14)) [
      | inl three ↦
          three_bytes-Splits b0 bs rest (ground arith) b
            (ground (arith, lead_two b0 h, lead_three b0 h))
      | inr not_three ↦ elim (Bool-cases (b0 / 8 == 30)) [
        | inl four ↦
            four_bytes-Splits b0 bs rest (ground arith) b
              (ground (arith, lead_two b0 h, lead_three b0 h, lead_four b0 h))
        | inr not_four ↦ absurd (ground (arith, lead_two b0 h, lead_three b0 h, lead_four b0 h))
      ]
    ]
  ]
]

-- Conversely, an encoded scalar value is consumed in one round.
abbrev Steps : Bytes → Bytes → Type 0
Steps front rest =
    (b0 : ℕ) × (bs : Bytes) × (front ++ rest ≡ b0 ∷ bs) × (utf8_step b0 bs ≡ some rest)

module _ (cp : ℕ) (rest : Bytes) (h : IsScalar cp) where
  Steps-one : cp < 0x80 → Steps (encode_scalar cp) rest
  unfolding encode_scalar utf8_step
  Steps-one l = (cp, rest, ground arith, ground arith)

  Steps-two : 0x80 ≤ cp → cp < 0x800 → Steps (encode_scalar cp) rest
  unfolding encode_scalar utf8_step two_bytes
  Steps-two l u =
      let b0 = 192 + cp / 64 in
      let b1 = 128 + cp % 64 in
      (
        b0,
        b1 ∷ rest,
        ground arith,
        ground (
          arith,
          lead_two b0 (omega arith),
          point2_lem b0 b1,
          not_continuation_lem b1 (omega arith),
        ),
      )

  Steps-three : 0x800 ≤ cp → cp < 0x10000 → Steps (encode_scalar cp) rest
  unfolding encode_scalar utf8_step three_bytes
  Steps-three l u =
      let b0 = 224 + cp / 4096 in
      let b1 = 128 + cp / 64 % 64 in
      let b2 = 128 + cp % 64 in
      (
        b0,
        b1 ∷ b2 ∷ rest,
        ground arith,
        ground (
          arith,
          lead_two b0 (omega arith),
          lead_three b0 (omega arith),
          point3_lem b0 b1 b2,
          not_continuation_lem b1 (omega arith),
          not_continuation_lem b2 (omega arith),
        ),
      )

  Steps-four : 0x10000 ≤ cp → Steps (encode_scalar cp) rest
  unfolding encode_scalar utf8_step four_bytes
  Steps-four l =
      let b0 = 240 + cp / 262144 in
      let b1 = 128 + cp / 4096 % 64 in
      let b2 = 128 + cp / 64 % 64 in
      let b3 = 128 + cp % 64 in
      (
        b0,
        b1 ∷ b2 ∷ b3 ∷ rest,
        ground arith,
        ground (
          arith,
          lead_two b0 (omega arith),
          lead_three b0 (omega arith),
          lead_four b0 (omega arith),
          point4_lem b0 b1 b2 b3,
          not_continuation_lem b1 (omega arith),
          not_continuation_lem b2 (omega arith),
          not_continuation_lem b3 (omega arith),
        ),
      )

  pub utf8_step-encode_scalar : Steps (encode_scalar cp) rest
  utf8_step-encode_scalar = elim (lt_or_le cp 0x80) [
    | inl one ↦ Steps-one one
    | inr more ↦ elim (lt_or_le cp 0x800) [
      | inl two ↦ Steps-two more two
      | inr more' ↦ elim (lt_or_le cp 0x10000) [
        | inl three ↦ Steps-three more' three
        | inr four ↦ Steps-four four
      ]
    ]
  ]

-- ===== src/Utf8/Masks.antt =====
-- The masks and shifts of the validator, as arithmetic on bytes.
use rabbitmq_ai.Common.{ℕ, ◌+◌, ◌*◌, ◌/◌, ◌%◌, ◌<◌, ◌≡◌, not, ◌==◌, arith, bit_and, bit_or, IsByte}
use rabbitmq_ai.Common.Bits.{
  shl, bit_or-shl, bit_or_join, bit_and_0x07, bit_and_0x0f, bit_and_0x1f, bit_and_0x3f,
  bit_and_0xc0, bit_and_0xe0, bit_and_0xf0, bit_and_0xf8,
}
use rabbitmq_ai.Utf8.{not_continuation}

pub not_continuation_lem : (b : ℕ) → IsByte b → not_continuation b ≡ not (b / 64 == 2)
unfolding not_continuation
not_continuation_lem b h = ground (arith, bit_and_0xc0 b h)

pub lead_two : (b : ℕ) → IsByte b → (bit_and b 0xE0 == 0xC0) ≡ (b / 32 == 6)
lead_two b h = ground (arith, bit_and_0xe0 b h)

pub lead_three : (b : ℕ) → IsByte b → (bit_and b 0xF0 == 0xE0) ≡ (b / 16 == 14)
lead_three b h = ground (arith, bit_and_0xf0 b h)

pub lead_four : (b : ℕ) → IsByte b → (bit_and b 0xF8 == 0xF0) ≡ (b / 8 == 30)
lead_four b h = ground (arith, bit_and_0xf8 b h)

-- The code points that two, three and four bytes spell.
abbrev pub point2 : ℕ → ℕ → ℕ
point2 b0 b1 = b0 % 32 * 64 + b1 % 64

abbrev pub point3 : ℕ → ℕ → ℕ → ℕ
point3 b0 b1 b2 = (b0 % 16 * 64 + b1 % 64) * 64 + b2 % 64

abbrev pub point4 : ℕ → ℕ → ℕ → ℕ → ℕ
point4 b0 b1 b2 b3 = ((b0 % 8 * 64 + b1 % 64) * 64 + b2 % 64) * 64 + b3 % 64

join2 : (a b : ℕ) → b < 64 → bit_or (shl a 6) b ≡ a * 64 + b
join2 a b h = bit_or-shl 6 a b h

join3 :
    (a b c : ℕ) → b < 64 → c < 64 → bit_or (bit_or (shl a 12) (shl b 6)) c ≡ (a * 64 + b) * 64 + c
join3 a b c hb hc =
    bit_or_join 6 _ (a * 64 + b) c (omega (arith, bit_or-shl 12 a (b * 64) (omega arith))) hc

join4 :
    (a b c d : ℕ)
    → b < 64
    → c < 64
    → d < 64
    → bit_or (bit_or (bit_or (shl a 18) (shl b 12)) (shl c 6)) d ≡ ((a * 64 + b) * 64 + c) * 64 + d
join4 a b c d hb hc hd =
    bit_or_join 6 _ ((a * 64 + b) * 64 + c) d
      (omega (
        arith,
        bit_or_join 12 (bit_or (shl a 18) (shl b 12)) (a * 64 + b) (c * 64)
            (omega (arith, bit_or-shl 18 a (b * 4096) (omega arith))) (omega arith),
      ))
      hd

pub point2_lem : (b0 b1 : ℕ) → bit_or (shl (bit_and b0 0x1F) 6) (bit_and b1 0x3F) ≡ point2 b0 b1
point2_lem b0 b1 = rw (bit_and_0x1f, bit_and_0x3f) (join2 _ _ (omega arith))

pub point3_lem :
    (b0 b1 b2 : ℕ)
    → bit_or (bit_or (shl (bit_and b0 0x0F) 12) (shl (bit_and b1 0x3F) 6)) (bit_and b2 0x3F)
      ≡ point3 b0 b1 b2
point3_lem b0 b1 b2 =
    rw (bit_and_0x0f b0, bit_and_0x3f b1, bit_and_0x3f b2) (join3 _ _ _ (omega arith) (omega arith))

pub point4_lem :
    (b0 b1 b2 b3 : ℕ)
    → bit_or
        (bit_or
          (bit_or (shl (bit_and b0 0x07) 18) (shl (bit_and b1 0x3F) 12))
          (shl (bit_and b2 0x3F) 6))
        (bit_and b3 0x3F)
      ≡ point4 b0 b1 b2 b3
point4_lem b0 b1 b2 b3 =
    rw (bit_and_0x07 b0, bit_and_0x3f b1, bit_and_0x3f b2, bit_and_0x3f b3)
      (join4 _ _ _ _ (omega arith) (omega arith) (omega arith))

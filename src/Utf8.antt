-- ===== src/Utf8.antt =====
-- src/utf8.cpp: the strict UTF-8 validator.
pub mod Masks
pub mod Spec
pub mod Step
pub mod Correct
use rabbitmq_ai.Common.{
  ℕ, zero, suc, Bool, true, false, not, ◌||◌, ◌&&◌, Option, none, some, [], ◌∷◌, ltb, leb, ◌==◌,
  if◌then◌else◌, Bytes, length, bit_and, bit_or,
}
use rabbitmq_ai.Common.Bits.{shl}

-- `(b & 0xC0) != 0x80`
unfoldable pub not_continuation : ℕ → Bool
not_continuation b = not (bit_and b 0xC0 == 0x80)

-- One round of the loop on `data[i..n)`, by the class of its first byte: `none` is `return false`,
-- and `some` holds what is left to scan after `i += …`.
unfoldable pub two_bytes : ℕ → Bytes → Option Bytes
two_bytes b0 [] = none
two_bytes b0 (b1 ∷ rest) =
    let cp = bit_or (shl (bit_and b0 0x1F) 6) (bit_and b1 0x3F) in
    if not_continuation b1 then none else if ltb cp 0x80 then none else some rest

unfoldable pub three_bytes : ℕ → Bytes → Option Bytes
three_bytes b0 [] = none
three_bytes b0 (b1 ∷ []) = none
three_bytes b0 (b1 ∷ b2 ∷ rest) =
    let cp =
      bit_or (bit_or (shl (bit_and b0 0x0F) 12) (shl (bit_and b1 0x3F) 6)) (bit_and b2 0x3F) in
    if not_continuation b1 || not_continuation b2
    then none
    else if ltb cp 0x800
    then none
    else if leb 0xD800 cp && leb cp 0xDFFF
    then none
    else some rest

unfoldable pub four_bytes : ℕ → Bytes → Option Bytes
four_bytes b0 [] = none
four_bytes b0 (b1 ∷ []) = none
four_bytes b0 (b1 ∷ b2 ∷ []) = none
four_bytes b0 (b1 ∷ b2 ∷ b3 ∷ rest) =
    let cp =
      bit_or
        (bit_or (bit_or (shl (bit_and b0 0x07) 18) (shl (bit_and b1 0x3F) 12))
          (shl (bit_and b2 0x3F) 6))
        (bit_and b3 0x3F) in
    if not_continuation b1 || not_continuation b2 || not_continuation b3
    then none
    else if ltb cp 0x10000
    then none
    else if ltb 0x10FFFF cp
    then none
    else some rest

unfoldable pub utf8_step : ℕ → Bytes → Option Bytes
utf8_step b0 rest =
    if ltb b0 0x80
    then some rest
    else if bit_and b0 0xE0 == 0xC0
    then two_bytes b0 rest
    else if bit_and b0 0xF0 == 0xE0
    then three_bytes b0 rest
    else if bit_and b0 0xF8 == 0xF0
    then four_bytes b0 rest
    else none

-- The loop, with fuel. Every round takes a byte at least.
unfoldable pub utf8_loop : ℕ → Bytes → Bool
utf8_loop fuel [] = true
utf8_loop zero (b ∷ bs) = false
utf8_loop (suc fuel) (b ∷ bs) = elim (utf8_step b bs) [
  | none ↦ false
  | some rest ↦ utf8_loop fuel rest
]

unfoldable pub is_valid_utf8 : Bytes → Bool
is_valid_utf8 bs = utf8_loop (length bs) bs

-- ===== src/Common/Int.antt =====
-- Signed integers over the native numbers, and the casts between a w-bit pattern and the signed
-- number that it stands for in two's complement.
use Prim.Native.Nat.{ℕ, ◌-◌, ◌*◌, ◌%◌, ◌<◌}
use rabbitmq_ai.Common.Tests.{ltb, if◌then◌else◌}

-- `negsuc n` is -(n + 1).
pub data ℤ : Type 0 where
  pos : ℕ → ℤ
  negsuc : ℕ → ℤ

-- `static_cast<uintN_t>(v)` and `static_cast<intN_t>(n)`, where 2^N is `2 * half`.
unfoldable pub to_unsigned : ℕ → ℤ → ℕ
to_unsigned half (pos n) = n % (2 * half)
to_unsigned half (negsuc n) = 2 * half - 1 - n % (2 * half)

unfoldable pub to_signed : ℕ → ℕ → ℤ
to_signed half n = let w = n % (2 * half) in if ltb w half then pos w else negsuc (2 * half - 1 - w)

-- The values of an N-bit signed integer.
abbrev pub IsSigned : ℕ → ℤ → Type 0
IsSigned half (pos n) = n < half
IsSigned half (negsuc n) = n < half

abbrev pub half8 : ℕ
half8 = 128

abbrev pub half16 : ℕ
half16 = 32768

abbrev pub half32 : ℕ
half32 = 2147483648

abbrev pub half64 : ℕ
half64 = 9223372036854775808

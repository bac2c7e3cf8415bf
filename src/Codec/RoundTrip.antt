-- ===== src/Codec/RoundTrip.antt =====
-- The wire types that a caller writes, read back.
use rabbitmq_ai.Common.{◌≡◌, ◌++◌, Option, Bytes, length}
use rabbitmq_ai.Common.Int.{ℤ, IsSigned, half8, half16, half32, half64}
use rabbitmq_ai.Result.{ok}
use rabbitmq_ai.Buffer.{Read, new_reader}
use rabbitmq_ai.Buffer.Reads.{advance}
use rabbitmq_ai.Codec.{
  Write, write_i8, write_i16, write_i32, write_i64, read_i8, read_i16, read_i32, read_i64,
  write_string_opt, read_string, write_bytes, read_bytes,
}
use rabbitmq_ai.Codec.Carries.{Carries-run, encoded}
use rabbitmq_ai.Codec.Words.{Carries-i8, Carries-i16, Carries-i32, Carries-i64}
use rabbitmq_ai.Codec.Strings.{IsTextOpt, IsShortOpt, Carries-string_opt, Carries-bytes}

-- What `f` writes in front of `rest`, `m` reads as `a`, and stops at `rest`.
abbrev pub ReadsBack : {A : Type 0} → Write → Read A → A → Bytes → Type 0
ReadsBack f m a rest =
    m (new_reader (encoded f ++ rest))
    ≡ (ok a, advance (length (encoded f)) (new_reader (encoded f ++ rest)))

-- Each signed integer of 8, 16, 32 and 64 bits is read back from its two's complement, whatever
-- follows.
pub signed-ReadsBack :
    (a b c d : ℤ) (rest : Bytes)
    → IsSigned half8 a
    → IsSigned half16 b
    → IsSigned half32 c
    → IsSigned half64 d
    → ReadsBack (write_i8 a) read_i8 a rest
      × ReadsBack (write_i16 b) read_i16 b rest
      × ReadsBack (write_i32 c) read_i32 c rest
      × ReadsBack (write_i64 d) read_i64 d rest
signed-ReadsBack a b c d rest h i j k = (
  Carries-run _ _ a rest (Carries-i8 a h),
  Carries-run _ _ b rest (Carries-i16 b i),
  Carries-run _ _ c rest (Carries-i32 c j),
  Carries-run _ _ d rest (Carries-i64 d k),
)

-- A string below 32768 bytes of valid UTF-8 and a byte string below 2^31 bytes, each of them null or
-- not, are read back, whatever follows: null stays apart from empty.
pub nullable-ReadsBack :
    (s xs : Option Bytes) (rest : Bytes)
    → IsTextOpt s
    → IsShortOpt xs
    → ReadsBack (write_string_opt s) read_string s rest
      × ReadsBack (write_bytes xs) read_bytes xs rest
nullable-ReadsBack s xs rest h i =
    (Carries-run _ _ s rest (Carries-string_opt s h), Carries-run _ _ xs rest (Carries-bytes xs i))

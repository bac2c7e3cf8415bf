-- ===== src/Codec.antt =====
-- src/codec.cpp, include/stream/codec.hpp: the wire types. A writer function maps the buffer before
-- it to the buffer after it; unsigned values are numbers, signed ones integers, strings bytes.
pub mod Carries
pub mod Words
pub mod Strings
pub mod Bounds
pub mod Truncated
pub mod RoundTrip
use rabbitmq_ai.Common.{
  ℕ, zero, suc, ◌+◌, ◌*◌, ◌%◌, ◌^◌, Bool, not, ◌&&◌, Option, none, some, List, [], ◌∷◌, ltb,
  if◌then◌else◌, Bytes, text, length, take, get_or, bit_and, bit_or,
}
use rabbitmq_ai.Common.Bits.{shl, shr}
use rabbitmq_ai.Common.Int.{ℤ, pos, negsuc, to_unsigned, to_signed, half8, half16, half32, half64}
use rabbitmq_ai.Errors.{Kind, StreamError, stream_error}
use rabbitmq_ai.Result.{Result, ok, err}
use rabbitmq_ai.Buffer.{
  BufferWriter, write_raw, write_byte, Read, pure, lift, ◌>>=◌, read_raw, read_byte, borrow,
}
use rabbitmq_ai.Utf8.{is_valid_utf8}

abbrev pub decode_err : Bytes → StreamError
decode_err msg = stream_error Kind.decode_error msg

-- An encoder, as what it does to its buffer.
abbrev pub Write : Type 0
Write = BufferWriter → BufferWriter

-- Encode. `v & 0xFF` after a shift is the cast to a byte.

unfoldable pub write_u8 : ℕ → Write
write_u8 v w = write_byte v w

unfoldable pub write_i8 : ℤ → Write
write_i8 v w = write_byte (to_unsigned half8 v) w

unfoldable pub write_u16 : ℕ → Write
write_u16 v w = write_byte (bit_and v 0xFF) (write_byte (bit_and (shr v 8) 0xFF) w)

unfoldable pub write_i16 : ℤ → Write
write_i16 v w = write_u16 (to_unsigned half16 v) w

unfoldable pub write_u32 : ℕ → Write
write_u32 v w = write_byte (bit_and v 0xFF) (
    write_byte (bit_and (shr v 8) 0xFF)
      (write_byte (bit_and (shr v 16) 0xFF) (write_byte (bit_and (shr v 24) 0xFF) w)))

unfoldable pub write_i32 : ℤ → Write
write_i32 v w = write_u32 (to_unsigned half32 v) w

-- `for (int i = 7; i >= 0; --i)`, with i + 1 rounds left.
unfoldable pub write_u64_loop : ℕ → ℕ → Write
write_u64_loop zero v w = w
write_u64_loop (suc i) v w = write_u64_loop i v (write_byte (bit_and (shr v (i * 8)) 0xFF) w)

unfoldable pub write_u64 : ℕ → Write
write_u64 v w = write_u64_loop 8 v w

unfoldable pub write_i64 : ℤ → Write
write_i64 v w = write_u64 (to_unsigned half64 v) w

abbrev pub int16_max : ℕ
int16_max = 32767

-- `write_string(BufferWriter&, const std::string&)`
unfoldable pub write_string : Bytes → Write
write_string s w =
    if ltb int16_max (length s)
    then write_raw (take int16_max s) (write_i16 (pos int16_max) w)
    else let w' = write_i16 (to_signed half16 (length s)) w in
      if ltb 0 (length s) then write_raw s w' else w'

-- `write_string(BufferWriter&, const std::optional<std::string>&)`
unfoldable pub write_string_opt : Option Bytes → Write
write_string_opt none w = write_i16 (negsuc 0) w
write_string_opt (some s) w = write_string s w

unfoldable pub write_bytes_raw : Bytes → Write
write_bytes_raw xs w =
    let w' = write_i32 (to_signed half32 (length xs)) w in
    if ltb 0 (length xs) then write_raw xs w' else w'

unfoldable pub write_bytes : Option Bytes → Write
write_bytes none w = write_i32 (negsuc 0) w
write_bytes (some b) w = write_bytes_raw b w

unfoldable pub write_array_prefix : ℤ → Write
write_array_prefix count w = write_i32 count w

-- Decode.

unfoldable pub read_u8 : Read ℕ
read_u8 = read_byte

unfoldable pub read_i8 : Read ℤ
read_i8 = do b ← read_byte; pure (to_signed half8 b)

unfoldable pub read_u16 : Read ℕ
read_u16 = do buf ← read_raw 2; pure (bit_or (shl (get_or buf 0 0) 8) (get_or buf 1 0) % 2 ^ 16)

unfoldable pub read_i16 : Read ℤ
read_i16 = do v ← read_u16; pure (to_signed half16 v)

unfoldable pub read_u32 : Read ℕ
read_u32 = do
  buf ← read_raw 4
  pure (
      bit_or
        (bit_or (bit_or (shl (get_or buf 0 0) 24 % 2 ^ 32) (shl (get_or buf 1 0) 16 % 2 ^ 32))
          (shl (get_or buf 2 0) 8 % 2 ^ 32))
        (get_or buf 3 0))

unfoldable pub read_i32 : Read ℤ
read_i32 = do v ← read_u32; pure (to_signed half32 v)

-- `v = (v << 8) | buf[i]` for each byte in turn, in a uint64_t.
unfoldable pub read_u64_loop : ℕ → Bytes → ℕ
read_u64_loop v [] = v
read_u64_loop v (b ∷ bs) = read_u64_loop (bit_or (shl v 8 % 2 ^ 64) b) bs

unfoldable pub read_u64 : Read ℕ
read_u64 = do buf ← read_raw 8; pure (read_u64_loop 0 buf)

unfoldable pub read_i64 : Read ℤ
read_i64 = do v ← read_u64; pure (to_signed half64 v)

-- The rest of `read_string`, by the length that was read.
unfoldable pub string_of_length : ℤ → Read (Option Bytes)
string_of_length (negsuc zero) = pure none
string_of_length (negsuc (suc n)) = lift (err (decode_err (text "string length out of range")))
string_of_length (pos sz) = do
  p ← borrow sz
  if ltb 0 sz && not (is_valid_utf8 p)
      then lift (err (decode_err (text "invalid UTF-8 in string")))
      else pure (some p)

unfoldable pub read_string : Read (Option Bytes)
read_string = do len ← read_i16; string_of_length len

unfoldable pub non_null : Option Bytes → Read Bytes
non_null none = lift (err (decode_err (text "expected non-null string")))
non_null (some s) = pure s

unfoldable pub read_string_required : Read Bytes
read_string_required = do s ← read_string; non_null s

-- The rest of `read_bytes`, by the length that was read.
unfoldable pub bytes_of_length : ℤ → Read (Option Bytes)
bytes_of_length (negsuc zero) = pure none
bytes_of_length (negsuc (suc n)) = lift (err (decode_err (text "bytes length out of range")))
bytes_of_length (pos sz) = do p ← borrow sz; pure (some p)

unfoldable pub read_bytes : Read (Option Bytes)
read_bytes = do len ← read_i32; bytes_of_length len

-- The count is not negative once it is accepted, so it comes back as a number.
unfoldable pub non_negative : ℤ → Read ℕ
non_negative (negsuc n) = lift (err (decode_err (text "negative array count")))
non_negative (pos n) = pure n

unfoldable pub read_array_prefix : Read ℕ
read_array_prefix = do len ← read_i32; non_negative len

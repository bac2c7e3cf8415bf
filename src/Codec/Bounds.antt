-- ===== src/Codec/Bounds.antt =====
-- Every decoder of the codec is `Careful` and `Local`.
use rabbitmq_ai.Common.{zero, suc, Option, none, some, Bytes, arith}
use rabbitmq_ai.Common.Int.{ℤ, pos, negsuc}
use rabbitmq_ai.Result.{err}
use rabbitmq_ai.Buffer.{lift}
use rabbitmq_ai.Buffer.Bounds.{
  IsDecodeError, Careful, Careful-pure, Careful-lift, Careful-bind, Careful-if, Careful-read_raw,
  Careful-read_byte, Careful-borrow,
}
use rabbitmq_ai.Buffer.Local.{
  Local, Local-pure, Local-lift, Local-bind, Local-if, Local-read_raw, Local-read_byte,
  Local-borrow,
}
use rabbitmq_ai.Codec.{
  decode_err, read_u8, read_u16, read_i16, read_u32, read_i32, read_u64, string_of_length,
  read_string, non_null, read_string_required, bytes_of_length, read_bytes, non_negative,
  read_array_prefix,
}

-- A refusal that consumes nothing more.
Careful-refuse {ℓ} :
    {A : Type ℓ} (msg : Bytes) → Careful IsDecodeError (lift {A = A} (err (decode_err msg)))
Careful-refuse msg = Careful-lift _ (λ e h. ground arith)

pub Careful-read_u8 : Careful IsDecodeError read_u8
unfolding read_u8
Careful-read_u8 = Careful-read_byte

pub Local-read_u8 : Local read_u8
unfolding read_u8
Local-read_u8 = Local-read_byte

pub Careful-read_u16 : Careful IsDecodeError read_u16
unfolding read_u16
Careful-read_u16 = Careful-bind _ _ (Careful-read_raw 2) (λ b. Careful-pure _)

pub Local-read_u16 : Local read_u16
unfolding read_u16
Local-read_u16 = Local-bind _ _ (Local-read_raw 2) (λ b. Local-pure _)

pub Careful-read_u32 : Careful IsDecodeError read_u32
unfolding read_u32
Careful-read_u32 = Careful-bind _ _ (Careful-read_raw 4) (λ b. Careful-pure _)

pub Local-read_u32 : Local read_u32
unfolding read_u32
Local-read_u32 = Local-bind _ _ (Local-read_raw 4) (λ b. Local-pure _)

pub Careful-read_u64 : Careful IsDecodeError read_u64
unfolding read_u64
Careful-read_u64 = Careful-bind _ _ (Careful-read_raw 8) (λ b. Careful-pure _)

pub Local-read_u64 : Local read_u64
unfolding read_u64
Local-read_u64 = Local-bind _ _ (Local-read_raw 8) (λ b. Local-pure _)

Careful-read_i16 : Careful IsDecodeError read_i16
unfolding read_i16
Careful-read_i16 = Careful-bind _ _ Careful-read_u16 (λ b. Careful-pure _)

Local-read_i16 : Local read_i16
unfolding read_i16
Local-read_i16 = Local-bind _ _ Local-read_u16 (λ b. Local-pure _)

Careful-read_i32 : Careful IsDecodeError read_i32
unfolding read_i32
Careful-read_i32 = Careful-bind _ _ Careful-read_u32 (λ b. Careful-pure _)

Local-read_i32 : Local read_i32
unfolding read_i32
Local-read_i32 = Local-bind _ _ Local-read_u32 (λ b. Local-pure _)

Careful-string_of_length : (len : ℤ) → Careful IsDecodeError (string_of_length len)
unfolding string_of_length
Careful-string_of_length (negsuc zero) = Careful-pure none
Careful-string_of_length (negsuc (suc n)) = Careful-refuse _
Careful-string_of_length (pos sz) =
    Careful-bind _ _ (Careful-borrow sz)
      (λ p. Careful-if _ _ _ (Careful-refuse _) (Careful-pure (some p)))

Local-string_of_length : (len : ℤ) → Local (string_of_length len)
unfolding string_of_length
Local-string_of_length (negsuc zero) = Local-pure none
Local-string_of_length (negsuc (suc n)) = Local-lift _
Local-string_of_length (pos sz) =
    Local-bind _ _ (Local-borrow sz) (λ p. Local-if _ _ _ (Local-lift _) (Local-pure (some p)))

Careful-non_null : (s : Option Bytes) → Careful IsDecodeError (non_null s)
unfolding non_null
Careful-non_null none = Careful-refuse _
Careful-non_null (some s) = Careful-pure s

Local-non_null : (s : Option Bytes) → Local (non_null s)
unfolding non_null
Local-non_null none = Local-lift _
Local-non_null (some s) = Local-pure s

pub Careful-read_string : Careful IsDecodeError read_string
unfolding read_string
Careful-read_string = Careful-bind _ _ Careful-read_i16 Careful-string_of_length

pub Careful-read_string_required : Careful IsDecodeError read_string_required
unfolding read_string_required
Careful-read_string_required = Careful-bind _ _ Careful-read_string Careful-non_null

pub Local-read_string : Local read_string
unfolding read_string
Local-read_string = Local-bind _ _ Local-read_i16 Local-string_of_length

pub Local-read_string_required : Local read_string_required
unfolding read_string_required
Local-read_string_required = Local-bind _ _ Local-read_string Local-non_null

Careful-bytes_of_length : (len : ℤ) → Careful IsDecodeError (bytes_of_length len)
unfolding bytes_of_length
Careful-bytes_of_length (negsuc zero) = Careful-pure none
Careful-bytes_of_length (negsuc (suc n)) = Careful-refuse _
Careful-bytes_of_length (pos sz) = Careful-bind _ _ (Careful-borrow sz) (λ p. Careful-pure (some p))

Local-bytes_of_length : (len : ℤ) → Local (bytes_of_length len)
unfolding bytes_of_length
Local-bytes_of_length (negsuc zero) = Local-pure none
Local-bytes_of_length (negsuc (suc n)) = Local-lift _
Local-bytes_of_length (pos sz) = Local-bind _ _ (Local-borrow sz) (λ p. Local-pure (some p))

pub Careful-read_bytes : Careful IsDecodeError read_bytes
unfolding read_bytes
Careful-read_bytes = Careful-bind _ _ Careful-read_i32 Careful-bytes_of_length

pub Local-read_bytes : Local read_bytes
unfolding read_bytes
Local-read_bytes = Local-bind _ _ Local-read_i32 Local-bytes_of_length

Careful-non_negative : (len : ℤ) → Careful IsDecodeError (non_negative len)
unfolding non_negative
Careful-non_negative (negsuc n) = Careful-refuse _
Careful-non_negative (pos n) = Careful-pure n

Local-non_negative : (len : ℤ) → Local (non_negative len)
unfolding non_negative
Local-non_negative (negsuc n) = Local-lift _
Local-non_negative (pos n) = Local-pure n

pub Careful-read_array_prefix : Careful IsDecodeError read_array_prefix
unfolding read_array_prefix
Careful-read_array_prefix = Careful-bind _ _ Careful-read_i32 Careful-non_negative

pub Local-read_array_prefix : Local read_array_prefix
unfolding read_array_prefix
Local-read_array_prefix = Local-bind _ _ Local-read_i32 Local-non_negative

pub ruleset careful_rules = (
  Careful-pure, Careful-bind, Careful-if, Careful-read_u16, Careful-read_u32, Careful-read_u64,
  Careful-read_string_required, Careful-read_bytes, Careful-read_array_prefix,
)

pub ruleset local_rules = (
  Local-pure, Local-bind, Local-if, Local-read_u16, Local-read_u32, Local-read_u64,
  Local-read_string_required, Local-read_bytes, Local-read_array_prefix,
)

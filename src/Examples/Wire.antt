-- ===== src/Examples/Wire.antt =====
-- Frames and UTF-8 at concrete inputs.
use rabbitmq_ai.Common.{◌≡◌, refl, ◌↔◌, true, false, some, none, [], ◌∷◌, Bytes, All, arith, IsByte}
use rabbitmq_ai.Utf8.{
  is_valid_utf8, utf8_loop, utf8_step, not_continuation, two_bytes, three_bytes, four_bytes,
}
use rabbitmq_ai.Utf8.Correct.{IsUtf8, is_valid_utf8_iff}
use rabbitmq_ai.Buffer.{write_raw, write_byte}
use rabbitmq_ai.Codec.{write_u16, write_u32}
use rabbitmq_ai.Codec.Words.{big_endian}
use rabbitmq_ai.Frame.{encode_request_frame, write_body}
use rabbitmq_ai.Frame.Key.{is_response}
use rabbitmq_ai.Frame.RoundTrip.{IsReceived, received, received-response, received-request}

-- "é"
abbrev e_acute : Bytes
e_acute = 0xC3 ∷ 0xA9 ∷ []

e_acute_bytes : All IsByte e_acute
e_acute_bytes = (omega arith, (omega arith, tt))

is_valid_utf8_iff_example : (is_valid_utf8 e_acute ≡ true) ↔ IsUtf8 e_acute
is_valid_utf8_iff_example = is_valid_utf8_iff e_acute e_acute_bytes

accepts_e_acute : is_valid_utf8 e_acute ≡ true
unfolding is_valid_utf8 utf8_loop utf8_step not_continuation two_bytes three_bytes four_bytes
accepts_e_acute = refl

-- An overlong "/".
refuses_overlong : is_valid_utf8 (0xC0 ∷ 0xAF ∷ []) ≡ false
unfolding is_valid_utf8 utf8_loop utf8_step not_continuation two_bytes three_bytes four_bytes
refuses_overlong = refl

-- SaslHandshake with id 42.
sasl_handshake_bytes :
    encode_request_frame 0x12 1 42 [] ≡ 0 ∷ 0 ∷ 0 ∷ 8 ∷ 0 ∷ 0x12 ∷ 0 ∷ 1 ∷ 0 ∷ 0 ∷ 0 ∷ 0x2A ∷ []
unfolding encode_request_frame write_body write_raw write_u16 write_u32 write_byte
sasl_handshake_bytes = refl

received-response_example :
    IsReceived
      (encode_request_frame 0x800D 1 42 (0 ∷ 1 ∷ []))
      (9 ∷ [])
      (received 0x800D 1 (0 ∷ 1 ∷ []) (some 42))
received-response_example =
    received-response 0x800D 1 42 (0 ∷ 1 ∷ []) (9 ∷ []) (omega arith) (omega arith) (omega arith)
      (omega arith) (unfold is_response in refl)

received-request_example :
    IsReceived
      (encode_request_frame 0x0D 1 42 (7 ∷ []))
      []
      (received 0x0D 1 (0 ∷ 0 ∷ 0 ∷ 42 ∷ 7 ∷ []) none)
unfolding big_endian
received-request_example =
    received-request 0x0D 1 42 (7 ∷ []) [] (omega arith) (omega arith) (omega arith) (omega arith)
      (unfold is_response in refl)

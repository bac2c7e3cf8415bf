-- ===== src/Frame.antt =====
-- src/frame.cpp, include/stream/frame.hpp: size-prefixed frames. `Frame.Key` and
-- `Frame.ResponseCode` hold the constants of the header.
pub mod Key
pub mod ResponseCode
pub mod Wire
pub mod RoundTrip
pub mod Bounds
use rabbitmq_ai.Common.{
  ℕ, ◌+◌, ◌-◌, ◌%◌, ◌^◌, Bool, Option, none, some, List, [], ◌∷◌, ltb, ◌==◌, if◌then◌else◌, Bytes,
  text, length,
}
use rabbitmq_ai.Errors.{Kind, stream_error}
use rabbitmq_ai.Result.{Result, ok, err}
use rabbitmq_ai.Buffer.{
  BufferWriter, new_writer, write_raw, Read, remaining, pure, gets, fail_if, ◌>>=◌, ◌>>◌, borrow,
}
use rabbitmq_ai.Codec.{write_u16, write_u32, read_u16, read_u32}
use Key.{is_response}

-- `static_cast<std::uint32_t>(size)`
abbrev pub to_u32 : ℕ → ℕ
to_u32 n = n % 2 ^ 32

-- `if (!body.empty()) inner.write_raw(...)`
unfoldable pub write_body : Bytes → BufferWriter → BufferWriter
write_body body w = if ltb 0 (length body) then write_raw body w else w

unfoldable pub encode_request_frame : ℕ → ℕ → ℕ → Bytes → Bytes
encode_request_frame key version correlation_id body =
    let w = write_raw [] new_writer in
    let inner =
      write_body body (write_u32 correlation_id (write_u16 version (write_u16 key new_writer))) in
    (write_raw inner.data_ (write_u32 (to_u32 (length inner.data_)) w)).data_

unfoldable pub encode_oneway_frame : ℕ → ℕ → Bytes → Bytes
encode_oneway_frame key version body =
    let inner = write_body body (write_u16 version (write_u16 key new_writer)) in
    (write_raw inner.data_ (write_u32 (to_u32 (length inner.data_)) new_writer)).data_

pub record IncomingFrame : Type 0 where
  pub key : ℕ
  pub version : ℕ
  pub body : Bytes
  pub correlation_id : Option ℕ

-- `if (key::is_response(f.key)) { … f.correlation_id = … }`
unfoldable pub read_correlation_id : ℕ → Read (Option ℕ)
read_correlation_id key =
    if is_response key then (read_u32 >>= λ cid. pure (some cid)) else pure none

-- From `auto start = r.pos()` on. The body length is a difference of two `size_t`, which wraps.
unfoldable pub read_frame_body : ℕ → Read IncomingFrame
read_frame_body declared = do
  start ← gets (λ r. r.pos_)
  key ← read_u16
  version ← read_u16
  cid ← read_correlation_id key
  now ← gets (λ r. r.pos_)
  body ← borrow ((declared + 2 ^ 64 - (now - start)) % 2 ^ 64)
  pure (record { key = key; version = version; body = body; correlation_id = cid })

unfoldable pub read_frame_auto : Read IncomingFrame
read_frame_auto = do
  declared ← read_u32
  fail_if (ltb declared 4) (stream_error Kind.protocol_violation (text "frame Size < 4"))
  left ← gets (λ r. remaining r)
  fail_if (ltb left declared) (stream_error Kind.decode_error (text "frame body truncated"))
  read_frame_body declared

unfoldable pub check_outbound_frame_size : ℕ → ℕ → Result (Unit {0})
check_outbound_frame_size body_size frame_max =
    if frame_max == 0
    then ok tt
    else if ltb frame_max body_size
    then err
        (stream_error Kind.protocol_violation (text "outbound frame exceeds negotiated FrameMax"))
    else ok tt

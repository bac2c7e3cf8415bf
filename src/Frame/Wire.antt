-- ===== src/Frame/Wire.antt =====
-- What an encoded frame is on the wire.
use rabbitmq_ai.Common.{
  ℕ, ◌%◌, ◌^◌, ◌≡◌, refl, sym, ap, ◌∙◌, [], ◌∷◌, ◌++◌, append-nil, arith, Bytes, length,
}
use rabbitmq_ai.Buffer.{BufferWriter, new_writer, write_raw}
use rabbitmq_ai.Codec.{write_u16, write_u32}
use rabbitmq_ai.Codec.Carries.{Writes, Writes-then}
use rabbitmq_ai.Codec.Words.{big_endian, Writes-write_u16, Writes-write_u32}
use rabbitmq_ai.Frame.{to_u32, write_body, encode_request_frame, encode_oneway_frame}

-- A frame on the wire: its size, then the payload.
abbrev pub framed : Bytes → Bytes
framed payload = big_endian 4 (length payload % 2 ^ 32) ++ payload

pub length-big_endian_4 : (v : ℕ) → length (big_endian 4 v) ≡ 4
unfolding big_endian
length-big_endian_4 v = refl

Writes-write_body : (body : Bytes) → Writes (write_body body) body
unfolding write_body write_raw
Writes-write_body [] = record { at = λ w. sym (append-nil w.data_) }
Writes-write_body (x ∷ xs) = record { at = λ w. ground arith }

-- The outer writer: the size of `xs`, then `xs`.
framing :
    (xs : Bytes) → (write_raw xs (write_u32 (to_u32 (length xs)) new_writer)).data_ ≡ framed xs
unfolding write_raw
framing xs = ap (λ t. t ++ xs) ((Writes-write_u32 (to_u32 (length xs))).at new_writer)

abbrev pub request_payload : ℕ → ℕ → ℕ → Bytes → Bytes
request_payload key version cid body =
    big_endian 2 key ++ (big_endian 2 version ++ (big_endian 4 cid ++ body))

abbrev pub oneway_payload : ℕ → ℕ → Bytes → Bytes
oneway_payload key version body = big_endian 2 key ++ (big_endian 2 version ++ body)

-- The size field holds the number of bytes behind it, and key, version and id are big-endian.
pub encode_request_frame_lem :
    (key version cid : ℕ) (body : Bytes)
    → encode_request_frame key version cid body ≡ framed (request_payload key version cid body)
unfolding encode_request_frame
encode_request_frame_lem key version cid body =
    let inner : BufferWriter =
      write_body body (write_u32 cid (write_u16 version (write_u16 key new_writer))) in
    let fields : inner.data_ ≡ request_payload key version cid body =
      (Writes-then (write_u16 key) (λ w. write_body body (write_u32 cid (write_u16 version w))) _ _
          (Writes-write_u16 key)
          (Writes-then (write_u16 version) (λ w. write_body body (write_u32 cid w)) _ _
            (Writes-write_u16 version)
            (Writes-then (write_u32 cid) (write_body body) _ _ (Writes-write_u32 cid)
              (Writes-write_body body)))).at
        new_writer in
    unfold write_raw in framing inner.data_ ∙ ap framed fields

pub encode_oneway_frame_lem :
    (key version : ℕ) (body : Bytes)
    → encode_oneway_frame key version body ≡ framed (oneway_payload key version body)
unfolding encode_oneway_frame
encode_oneway_frame_lem key version body =
    let inner : BufferWriter = write_body body (write_u16 version (write_u16 key new_writer)) in
    let fields : inner.data_ ≡ oneway_payload key version body =
      (Writes-then (write_u16 key) (λ w. write_body body (write_u16 version w)) _ _
          (Writes-write_u16 key)
          (Writes-then (write_u16 version) (write_body body) _ _ (Writes-write_u16 version)
            (Writes-write_body body))).at
        new_writer in
    framing inner.data_ ∙ ap framed fields

-- ===== src/Frame/RoundTrip.antt =====
-- A received frame is what was framed.
use rabbitmq_ai.Common.{
  ℕ, ◌+◌, ◌-◌, ◌%◌, ◌^◌, ◌<◌, ◌≡◌, refl, true, false, Option, none, some, [], ◌++◌, arith, Bytes,
  length, length-append, le→ltb-false,
}
use rabbitmq_ai.Result.{ok}
use rabbitmq_ai.Buffer.{BufferReader, new_reader, borrow}
use rabbitmq_ai.Buffer.Reads.{
  advance, enough, new_reader-IsBounded, Reads, Reads-pure, Reads-borrow, Reads-map,
}
use rabbitmq_ai.Buffer.ReadsAt.{ReadsAt, ReadsAt-bind, ReadsAt-gets, ReadsAt-fail_if}
use rabbitmq_ai.Codec.{read_u16, read_u32}
use rabbitmq_ai.Codec.Words.{big_endian, Reads-read_u16, Reads-read_u32}
use rabbitmq_ai.Frame.{
  encode_request_frame, encode_oneway_frame, IncomingFrame, read_correlation_id, read_frame_body,
  read_frame_auto,
}
use rabbitmq_ai.Frame.Key.{is_response}
use rabbitmq_ai.Frame.Wire.{
  framed, length-big_endian_4, request_payload, oneway_payload, encode_request_frame_lem,
  encode_oneway_frame_lem,
}

abbrev pub received : ℕ → ℕ → Bytes → Option ℕ → IncomingFrame
received key version body cid = record {
  key = key;
  version = version;
  body = body;
  correlation_id = cid;
}

-- `cw` are the bytes of the correlation id, if the key says that there is one.
abbrev payload : ℕ → ℕ → Bytes → Bytes → Bytes
payload key version cw body = big_endian 2 key ++ (big_endian 2 version ++ (cw ++ body))

length-payload :
    (key version : ℕ) (cw body : Bytes)
    → length (payload key version cw body) ≡ 4 + length cw + length body
unfolding big_endian
length-payload key version cw body = omega (arith, length-append cw body)

-- The body length that the reader computes, once the fields before the body are consumed.
body_length :
    (start cw_length body_size declared : ℕ)
    → declared ≡ 4 + cw_length + body_size
    → declared < 2 ^ 32
    → (declared + 2 ^ 64 - (start + 2 + 2 + cw_length - start)) % 2 ^ 64 ≡ body_size
body_length start n b declared e h = omega arith

module _ (key version : ℕ) (cw body : Bytes) (cid : Option ℕ) (hk : key < 2 ^ 16)
    (hv : version < 2 ^ 16) (hc : Reads (read_correlation_id key) cw cid) (declared : ℕ)
    (size : declared ≡ 4 + length cw + length body) (fits : declared < 2 ^ 32) where
  ReadsAt-read_frame_body :
      (r : BufferReader)
      → ReadsAt r
          (read_frame_body declared)
          (payload key version cw body)
          (received key version body cid)
  unfolding read_frame_body big_endian
  ReadsAt-read_frame_body r = ReadsAt-gets _ _ (payload key version cw body) _ r (
      ReadsAt-bind read_u16 _ (big_endian 2 key) (big_endian 2 version ++ (cw ++ body)) key _ r
        (Reads-read_u16 key hk)
        (ReadsAt-bind read_u16 _ (big_endian 2 version) (cw ++ body) version _ _
          (Reads-read_u16 version hv)
          (ReadsAt-bind (read_correlation_id key) _ cw body cid _ _ hc (
            ReadsAt-gets _ _ body _ _ λ rest i e.
              rw (body_length r.pos_ (length cw) (length body) declared size fits) (
                (Reads-map (borrow (length body)) (λ b. received key version b cid) body body
                    (Reads-borrow body)).at
                  _ rest i e)))))

  -- The whole frame, size included.
  Reads-read_frame_auto :
      Reads read_frame_auto
        (big_endian 4 declared ++ payload key version cw body)
        (received key version body cid)
  unfolding read_frame_auto
  Reads-read_frame_auto = record {
    at = λ r.
        ReadsAt-bind read_u32 _ (big_endian 4 declared) (payload key version cw body) declared _ r
          (Reads-read_u32 declared fits)
          (ReadsAt-fail_if _ _ _ (payload key version cw body) _ _ (ground arith) (
            ReadsAt-gets _ _ (payload key version cw body) _ _ λ rest i e.
              ReadsAt-fail_if _ _ _ (payload key version cw body) _ _
                (le→ltb-false _ _ (
                  omega (
                    arith,
                    enough _ (payload key version cw body) rest i e,
                    length-payload key version cw body,
                  )))
                (ReadsAt-read_frame_body _) rest i e));
  }

Reads-some_id :
    (key cid : ℕ)
    → is_response key ≡ true
    → cid < 2 ^ 32
    → Reads (read_correlation_id key) (big_endian 4 cid) (some cid)
unfolding read_correlation_id
Reads-some_id key cid bit h = rw bit (Reads-map read_u32 some _ cid (Reads-read_u32 cid h))

Reads-no_id : (key : ℕ) → is_response key ≡ false → Reads (read_correlation_id key) [] none
unfolding read_correlation_id
Reads-no_id key bit = rw bit (Reads-pure none)

-- `frame` starts the input: it is read as `f`, and the cursor stops behind it.
abbrev pub IsReceived : Bytes → Bytes → IncomingFrame → Type 0
IsReceived frame rest f =
    read_frame_auto (new_reader (frame ++ rest))
    ≡ (ok f, advance (length frame) (new_reader (frame ++ rest)))

IsReceived-framed :
    (payload rest : Bytes) (f : IncomingFrame)
    → length payload < 2 ^ 32
    → Reads read_frame_auto (big_endian 4 (length payload) ++ payload) f
    → IsReceived (framed payload) rest f
unfolding new_reader
IsReceived-framed payload rest f h p =
    let e : length payload % 2 ^ 32 ≡ length payload = omega arith in
    rw e (
      p.at (new_reader ((big_endian 4 (length payload) ++ payload) ++ rest)) rest
        (new_reader-IsBounded _) refl)

module _ (key version cid : ℕ) (body rest : Bytes) (hk : key < 2 ^ 16) (hv : version < 2 ^ 16)
    (hc : cid < 2 ^ 32) (fits : 8 + length body < 2 ^ 32) where
  -- A frame with a response key, framed with an id as encode_request_frame does, is received with its
  -- key, version, id and body, whatever follows, and the reader stops right behind it: for a key and a
  -- version of 16 bits, an id of 32 bits and a size below 2^32.
  pub received-response :
      is_response key ≡ true
      → IsReceived
          (encode_request_frame key version cid body)
          rest
          (received key version body (some cid))
  received-response bit =
      let size = length-payload key version (big_endian 4 cid) body in
      let four = length-big_endian_4 cid in
      rw (encode_request_frame_lem key version cid body) (
        IsReceived-framed (request_payload key version cid body) rest _ (omega (arith, size, four))
          (Reads-read_frame_auto key version (big_endian 4 cid) body (some cid) hk hv
            (Reads-some_id key cid bit hc) _ size (omega (arith, size, four))))

  -- A frame with a request key carries its id too, but is received with no id: the four bytes of the
  -- id are the first of the body. The key and the version have 16 bits, the id 32, and the size is
  -- below 2^32.
  pub received-request :
      is_response key ≡ false
      → IsReceived
          (encode_request_frame key version cid body)
          rest
          (received key version (big_endian 4 cid ++ body) none)
  received-request bit =
      let inside = big_endian 4 cid ++ body in
      let size = length-payload key version [] inside in
      let long = length-append (big_endian 4 cid) body in
      let four = length-big_endian_4 cid in
      rw (encode_request_frame_lem key version cid body) (
        IsReceived-framed (request_payload key version cid body) rest _
          (omega (arith, size, long, four))
          (Reads-read_frame_auto key version [] inside none hk hv (Reads-no_id key bit) _ size
            (omega (arith, size, long, four))))

-- A one-way frame, whose key is not that of a response, is received with its key, version and body and
-- with no id, whatever follows: for a key and a version of 16 bits and a size below 2^32.
pub received-oneway :
    (key version : ℕ) (body rest : Bytes)
    → key < 2 ^ 16
    → version < 2 ^ 16
    → 4 + length body < 2 ^ 32
    → is_response key ≡ false
    → IsReceived (encode_oneway_frame key version body) rest (received key version body none)
received-oneway key version body rest hk hv fits bit =
    let size = length-payload key version [] body in
    rw (encode_oneway_frame_lem key version body) (
      IsReceived-framed (oneway_payload key version body) rest _ (omega (arith, size)) (
        Reads-read_frame_auto key version [] body none hk hv (Reads-no_id key bit) _ size
          (omega (arith, size))))

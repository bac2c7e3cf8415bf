-- ===== src/Commands/Messages/Received.antt =====
-- The body of every command is read back, alone and in a frame.
use rabbitmq_ai.Common.{
  ℕ, ◌+◌, ◌^◌, ◌<◌, ◌≡◌, ap, arith, subst, append-nil, [], ◌++◌, some, true, Bytes, length,
}
use rabbitmq_ai.Result.{ok}
use rabbitmq_ai.Buffer.{new_reader}
use rabbitmq_ai.Codec.Carries.{Carries, Carries-run, encoded}
use rabbitmq_ai.Frame.{encode_request_frame, read_frame_auto}
use rabbitmq_ai.Frame.Key.{is_response, response_of}
use rabbitmq_ai.Frame.RoundTrip.{received, received-response}
use rabbitmq_ai.Commands.RoundTrip
use rabbitmq_ai.Commands.RoundTrip.{RoundTrips, IsU16, IsU32, IsU64}
use rabbitmq_ai.Commands.Messages.{
  Message, peer_properties_request, peer_properties_response, sasl_handshake_request,
  sasl_handshake_response, sasl_authenticate_request, sasl_authenticate_response, tune,
  open_request, open_response, close_request, close_response, create_request, create_response,
  delete_request, delete_response, store_offset, query_offset_request, query_offset_response,
  query_publisher_request, query_publisher_response, body_of, command_of, Fits,
}

pub message-Carries :
    (m : Message)
    → Fits m
    → Carries ((command_of m).encode_body (body_of m)) (command_of m).decode_body (body_of m)
message-Carries (peer_properties_request c) f = RoundTrip.Carries-peer_properties_request c f
message-Carries (peer_properties_response c) f =
    RoundTrip.Carries-peer_properties_response c f.0 f.1
message-Carries (sasl_handshake_request c) f = RoundTrip.Carries-sasl_handshake_request c
message-Carries (sasl_handshake_response c) f =
    RoundTrip.Carries-sasl_handshake_response c f.0 f.1 f.2
message-Carries (sasl_authenticate_request c) f =
    RoundTrip.Carries-sasl_authenticate_request c f.0 f.1
message-Carries (sasl_authenticate_response c) f =
    RoundTrip.Carries-sasl_authenticate_response c f.0 f.1
message-Carries (tune c) f = RoundTrip.Carries-tune c f.0 f.1
message-Carries (open_request c) f = RoundTrip.Carries-open_request c f
message-Carries (open_response c) f = RoundTrip.Carries-open_response c f.0 f.1
message-Carries (close_request c) f = RoundTrip.Carries-close_request c f.0 f.1
message-Carries (close_response c) f = RoundTrip.Carries-close_response c f
message-Carries (create_request c) f = RoundTrip.Carries-create_request c f.0 f.1
message-Carries (create_response c) f = RoundTrip.Carries-create_response c f
message-Carries (delete_request c) f = RoundTrip.Carries-delete_request c f
message-Carries (delete_response c) f = RoundTrip.Carries-delete_response c f
message-Carries (store_offset c) f = RoundTrip.Carries-store_offset c f.0 f.1 f.2
message-Carries (query_offset_request c) f = RoundTrip.Carries-query_offset_request c f.0 f.1
message-Carries (query_offset_response c) f = RoundTrip.Carries-query_offset_response c f.0 f.1
message-Carries (query_publisher_request c) f = RoundTrip.Carries-query_publisher_request c f.0 f.1
message-Carries (query_publisher_response c) f =
    RoundTrip.Carries-query_publisher_response c f.0 f.1

-- The body of each command whose fields fit the wire is decoded to that command, whatever bytes
-- follow, and the decoder stops right behind the body.
pub message-RoundTrips :
    (m : Message) (rest : Bytes) → Fits m → RoundTrips (command_of m) (body_of m) rest
message-RoundTrips m rest f = Carries-run _ _ (body_of m) rest (message-Carries m f)

message-key : (m : Message) → ((command_of m).key < 2 ^ 16) × ((command_of m).version < 2 ^ 16)
unfolding response_of
message-key (peer_properties_request c) = (omega arith, omega arith)
message-key (peer_properties_response c) = (omega arith, omega arith)
message-key (sasl_handshake_request c) = (omega arith, omega arith)
message-key (sasl_handshake_response c) = (omega arith, omega arith)
message-key (sasl_authenticate_request c) = (omega arith, omega arith)
message-key (sasl_authenticate_response c) = (omega arith, omega arith)
message-key (tune c) = (omega arith, omega arith)
message-key (open_request c) = (omega arith, omega arith)
message-key (open_response c) = (omega arith, omega arith)
message-key (close_request c) = (omega arith, omega arith)
message-key (close_response c) = (omega arith, omega arith)
message-key (create_request c) = (omega arith, omega arith)
message-key (create_response c) = (omega arith, omega arith)
message-key (delete_request c) = (omega arith, omega arith)
message-key (delete_response c) = (omega arith, omega arith)
message-key (store_offset c) = (omega arith, omega arith)
message-key (query_offset_request c) = (omega arith, omega arith)
message-key (query_offset_response c) = (omega arith, omega arith)
message-key (query_publisher_request c) = (omega arith, omega arith)
message-key (query_publisher_response c) = (omega arith, omega arith)

-- A command with the key of a response, framed with an id, is received: read_frame_auto gives its key
-- and its id, whatever bytes follow the frame, and the body of the frame decodes to the command. Its
-- fields fit the wire, the id has 32 bits and the frame is shorter than 2^32 bytes.
pub message-received :
    (m : Message) (cid : ℕ) (rest : Bytes)
    → Fits m
    → is_response (command_of m).key ≡ true
    → cid < 2 ^ 32
    → 8 + length (encoded ((command_of m).encode_body (body_of m))) < 2 ^ 32
    → let k = command_of m in
      let body = encoded (k.encode_body (body_of m)) in
      ((read_frame_auto (new_reader (encode_request_frame k.key k.version cid body ++ rest))).0
        ≡ ok (received k.key k.version body (some cid)))
      × ((k.decode_body (new_reader body)).0 ≡ ok (body_of m))
message-received m cid rest f bit small size =
    let k = command_of m in
    let body = encoded (k.encode_body (body_of m)) in
    (
      ap (λ p. p.0)
          (received-response k.key k.version cid body rest (message-key m).0 (message-key m).1 small
            size bit),
      subst (λ xs. (k.decode_body (new_reader xs)).0 ≡ ok (body_of m)) (append-nil body)
          (ap (λ p. p.0) (message-RoundTrips m [] f)),
    )

-- ===== src/Commands/Messages/Refused.antt =====
-- What the decoders make of bytes that are no body, or not all of one.
use rabbitmq_ai.Common.{ℕ, ◌≡◌, ◌∷◌, ◌++◌, Bytes}
use rabbitmq_ai.Buffer.{new_reader}
use rabbitmq_ai.Buffer.Bounds.{IsDecodeError, Ends, Careful}
use rabbitmq_ai.Buffer.Reads.{new_reader-IsBounded}
use rabbitmq_ai.Buffer.Local.{Local}
use rabbitmq_ai.Codec.Carries.{encoded}
use rabbitmq_ai.Codec.Truncated.{RefusesDecode, Carries-truncated}
use rabbitmq_ai.Commands.Bounds
use rabbitmq_ai.Commands.Messages.{
  Message, peer_properties_request, peer_properties_response, sasl_handshake_request,
  sasl_handshake_response, sasl_authenticate_request, sasl_authenticate_response, tune,
  open_request, open_response, close_request, close_response, create_request, create_response,
  delete_request, delete_response, store_offset, query_offset_request, query_offset_response,
  query_publisher_request, query_publisher_response, body_of, command_of, Fits,
}
use rabbitmq_ai.Commands.Messages.Received.{message-Carries}

message-Careful : (m : Message) → Careful IsDecodeError (command_of m).decode_body
message-Careful (peer_properties_request c) = Bounds.Careful-peer_properties_request
message-Careful (peer_properties_response c) = Bounds.Careful-peer_properties_response
message-Careful (sasl_handshake_request c) = Bounds.Careful-sasl_handshake_request
message-Careful (sasl_handshake_response c) = Bounds.Careful-sasl_handshake_response
message-Careful (sasl_authenticate_request c) = Bounds.Careful-sasl_authenticate_request
message-Careful (sasl_authenticate_response c) = Bounds.Careful-sasl_authenticate_response
message-Careful (tune c) = Bounds.Careful-tune
message-Careful (open_request c) = Bounds.Careful-open_request
message-Careful (open_response c) = Bounds.Careful-open_response
message-Careful (close_request c) = Bounds.Careful-close_request
message-Careful (close_response c) = Bounds.Careful-close_response
message-Careful (create_request c) = Bounds.Careful-create_request
message-Careful (create_response c) = Bounds.Careful-create_response
message-Careful (delete_request c) = Bounds.Careful-delete_request
message-Careful (delete_response c) = Bounds.Careful-delete_response
message-Careful (store_offset c) = Bounds.Careful-store_offset
message-Careful (query_offset_request c) = Bounds.Careful-query_offset_request
message-Careful (query_offset_response c) = Bounds.Careful-query_offset_response
message-Careful (query_publisher_request c) = Bounds.Careful-query_publisher_request
message-Careful (query_publisher_response c) = Bounds.Careful-query_publisher_response

-- All but those with an array, for which the code reserves room for the count that it reads.
abbrev pub HasNoArray : Message → Type 0
HasNoArray (peer_properties_request c) = ⊥
HasNoArray (peer_properties_response c) = ⊥
HasNoArray (sasl_handshake_response c) = ⊥
HasNoArray (open_response c) = ⊥
HasNoArray (create_request c) = ⊥
HasNoArray _ = Unit

-- On any input, the decoder of a command that has no array gives a value or fails with a DecodeError,
-- and leaves its cursor on the same input, no further back than it began and inside the input.
pub message-Ends :
    (m : Message) (input : Bytes)
    → HasNoArray m
    → Ends IsDecodeError (new_reader input) ((command_of m).decode_body (new_reader input))
message-Ends m input h = (message-Careful m).at (new_reader input) (new_reader-IsBounded input)

-- All but those whose last field the decoder reads only if bytes are left.
abbrev pub IsWhole : Message → Type 0
IsWhole (open_response c) = ⊥
IsWhole (sasl_authenticate_response c) = ⊥
IsWhole _ = Unit

message-Local : (m : Message) → IsWhole m → Local (command_of m).decode_body
message-Local (peer_properties_request c) h = Bounds.Local-peer_properties_request
message-Local (peer_properties_response c) h = Bounds.Local-peer_properties_response
message-Local (sasl_handshake_request c) h = Bounds.Local-sasl_handshake_request
message-Local (sasl_handshake_response c) h = Bounds.Local-sasl_handshake_response
message-Local (sasl_authenticate_request c) h = Bounds.Local-sasl_authenticate_request
message-Local (sasl_authenticate_response c) h = absurd h
message-Local (tune c) h = Bounds.Local-tune
message-Local (open_request c) h = Bounds.Local-open_request
message-Local (open_response c) h = absurd h
message-Local (close_request c) h = Bounds.Local-close_request
message-Local (close_response c) h = Bounds.Local-close_response
message-Local (create_request c) h = Bounds.Local-create_request
message-Local (create_response c) h = Bounds.Local-create_response
message-Local (delete_request c) h = Bounds.Local-delete_request
message-Local (delete_response c) h = Bounds.Local-delete_response
message-Local (store_offset c) h = Bounds.Local-store_offset
message-Local (query_offset_request c) h = Bounds.Local-query_offset_request
message-Local (query_offset_response c) h = Bounds.Local-query_offset_response
message-Local (query_publisher_request c) h = Bounds.Local-query_publisher_request
message-Local (query_publisher_response c) h = Bounds.Local-query_publisher_response

-- Every proper prefix of the body of a command whose fields fit the wire is refused with a DecodeError,
-- but for OpenResponse and SaslAuthenticateResponse, whose last field may be missing.
pub message-truncated :
    (m : Message) (front back : Bytes) (x : ℕ)
    → Fits m
    → IsWhole m
    → encoded ((command_of m).encode_body (body_of m)) ≡ front ++ x ∷ back
    → RefusesDecode ((command_of m).decode_body (new_reader front)).0
message-truncated m front back x f h e =
    Carries-truncated _ _ (body_of m) front back x (message-Carries m f) (message-Local m h)
      (message-Careful m) e

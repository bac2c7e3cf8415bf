-- ===== src/Commands/Headlines.antt =====
-- What the command structs promise: each body is read back whatever follows it, and no proper
-- prefix of it is accepted.
use rabbitmq_ai.Common.{ℕ, ◌≡◌, ◌++◌, ◌∷◌, Bytes, All}
use rabbitmq_ai.Buffer.{new_reader}
use rabbitmq_ai.Buffer.Reads.{new_reader-IsBounded}
use rabbitmq_ai.Buffer.Bounds.{IsDecodeError, Ends}
use rabbitmq_ai.Codec.Carries.{Carries-run, encoded}
use rabbitmq_ai.Codec.Strings.{IsText, IsShort, IsShortOpt}
use rabbitmq_ai.Codec.Truncated.{RefusesDecode, Carries-truncated}
use rabbitmq_ai.Commands.Arrays.{IsProperties}
use rabbitmq_ai.Commands.Handshake
use rabbitmq_ai.Commands.Connection
use rabbitmq_ai.Commands.Lifecycle
use rabbitmq_ai.Commands.Handshake.{encode_sasl_authenticate_request}
use rabbitmq_ai.Commands.Lifecycle.{
  encode_create_request, decode_create_request, encode_store_offset, decode_store_offset,
}
use rabbitmq_ai.Commands.RoundTrip
use rabbitmq_ai.Commands.RoundTrip.{RoundTrips, IsU16, IsU32, IsU64}
use rabbitmq_ai.Commands.Bounds

-- A PeerPropertiesResponse with a 16-bit code and properties that fit the wire (strings below 32768
-- bytes of valid UTF-8, fewer than 2^31 pairs) is decoded from its own body, whatever bytes follow,
-- and the decoder stops right behind the body.
pub peer_properties_response-RoundTrips :
    (c : Handshake.PeerPropertiesResponse) (rest : Bytes)
    → IsU16 c.response_code
    → IsProperties c.properties
    → RoundTrips Handshake.peer_properties_response_command c rest
peer_properties_response-RoundTrips c rest h i =
    Carries-run _ _ c rest (RoundTrip.Carries-peer_properties_response c h i)

-- A SaslHandshakeResponse with a 16-bit code and mechanism names that fit the wire is decoded from its
-- own body, names in order, whatever bytes follow.
pub sasl_handshake_response-RoundTrips :
    (c : Handshake.SaslHandshakeResponse) (rest : Bytes)
    → IsU16 c.response_code
    → IsShort c.mechanisms
    → All IsText c.mechanisms
    → RoundTrips Handshake.sasl_handshake_response_command c rest
sasl_handshake_response-RoundTrips c rest h i j =
    Carries-run _ _ c rest (RoundTrip.Carries-sasl_handshake_response c h i j)

-- A SaslAuthenticateRequest whose mechanism fits the wire and whose data is shorter than 2^31 bytes is
-- decoded from its own body, whatever bytes follow.
pub sasl_authenticate_request-RoundTrips :
    (c : Handshake.SaslAuthenticateRequest) (rest : Bytes)
    → IsText c.mechanism
    → IsShort c.sasl_opaque_data
    → RoundTrips Handshake.sasl_authenticate_request_command c rest
sasl_authenticate_request-RoundTrips c rest h i =
    Carries-run _ _ c rest (RoundTrip.Carries-sasl_authenticate_request c h i)

-- A SaslAuthenticateResponse is decoded from its own body, whatever bytes follow; data that is null
-- stays apart from data that is empty.
pub sasl_authenticate_response-RoundTrips :
    (c : Handshake.SaslAuthenticateResponse) (rest : Bytes)
    → IsU16 c.response_code
    → IsShortOpt c.sasl_opaque_data
    → RoundTrips Handshake.sasl_authenticate_response_command c rest
sasl_authenticate_response-RoundTrips c rest h i =
    Carries-run _ _ c rest (RoundTrip.Carries-sasl_authenticate_response c h i)

-- A Tune of two 32-bit values is decoded from its own body, whatever bytes follow.
pub tune-RoundTrips :
    (c : Connection.Tune) (rest : Bytes)
    → IsU32 c.frame_max
    → IsU32 c.heartbeat
    → RoundTrips Connection.tune_command c rest
tune-RoundTrips c rest h i = Carries-run _ _ c rest (RoundTrip.Carries-tune c h i)

-- An OpenResponse with a 16-bit code and properties that fit the wire is decoded from its own body,
-- whatever bytes follow.
pub open_response-RoundTrips :
    (c : Connection.OpenResponse) (rest : Bytes)
    → IsU16 c.response_code
    → IsProperties c.connection_properties
    → RoundTrips Connection.open_response_command c rest
open_response-RoundTrips c rest h i = Carries-run _ _ c rest (RoundTrip.Carries-open_response c h i)

-- A CreateRequest whose stream and arguments fit the wire is decoded from its own body, arguments in
-- order, whatever bytes follow.
pub create_request-RoundTrips :
    (c : Lifecycle.CreateRequest) (rest : Bytes)
    → IsText c.stream
    → IsProperties c.arguments
    → RoundTrips Lifecycle.create_request_command c rest
create_request-RoundTrips c rest h i =
    Carries-run _ _ c rest (RoundTrip.Carries-create_request c h i)

-- A StoreOffset whose strings fit the wire and whose offset is a 64-bit value is decoded from its own
-- body, whatever bytes follow.
pub store_offset-RoundTrips :
    (c : Lifecycle.StoreOffset) (rest : Bytes)
    → IsText c.reference
    → IsText c.stream
    → IsU64 c.offset
    → RoundTrips Lifecycle.store_offset_command c rest
store_offset-RoundTrips c rest h i j =
    Carries-run _ _ c rest (RoundTrip.Carries-store_offset c h i j)

-- A QueryOffsetResponse of a 16-bit code and a 64-bit offset is decoded from its own body, whatever
-- bytes follow.
pub query_offset_response-RoundTrips :
    (c : Lifecycle.QueryOffsetResponse) (rest : Bytes)
    → IsU16 c.response_code
    → IsU64 c.offset
    → RoundTrips Lifecycle.query_offset_response_command c rest
query_offset_response-RoundTrips c rest h i =
    Carries-run _ _ c rest (RoundTrip.Carries-query_offset_response c h i)

-- Every proper prefix of the body of a CreateRequest that fits the wire is refused with a DecodeError.
pub create_request-truncated :
    (c : Lifecycle.CreateRequest) (front back : Bytes) (x : ℕ)
    → IsText c.stream
    → IsProperties c.arguments
    → encoded (encode_create_request c) ≡ front ++ x ∷ back
    → RefusesDecode (decode_create_request (new_reader front)).0
create_request-truncated c front back x h i e =
    Carries-truncated _ _ c front back x (RoundTrip.Carries-create_request c h i)
      Bounds.Local-create_request Bounds.Careful-create_request e

-- Every proper prefix of the body of a StoreOffset that fits the wire is refused with a DecodeError.
pub store_offset-truncated :
    (c : Lifecycle.StoreOffset) (front back : Bytes) (x : ℕ)
    → IsText c.reference
    → IsText c.stream
    → IsU64 c.offset
    → encoded (encode_store_offset c) ≡ front ++ x ∷ back
    → RefusesDecode (decode_store_offset (new_reader front)).0
store_offset-truncated c front back x h i j e =
    Carries-truncated _ _ c front back x (RoundTrip.Carries-store_offset c h i j)
      Bounds.Local-store_offset Bounds.Careful-store_offset e

-- On any input whatever, each decoder of a command that a client receives either gives a value or
-- fails with a DecodeError, and in both cases leaves its cursor on the same input, no further back
-- than it began and inside the input: the checked cursor never runs past the end.
pub decoders-Ends :
    (input : Bytes)
    → let r = new_reader input in
      Ends IsDecodeError r (Handshake.decode_peer_properties_response r)
      × Ends IsDecodeError r (Handshake.decode_sasl_handshake_response r)
      × Ends IsDecodeError r (Handshake.decode_sasl_authenticate_response r)
      × Ends IsDecodeError r (Connection.decode_tune r)
      × Ends IsDecodeError r (Connection.decode_open_response r)
      × Ends IsDecodeError r (Lifecycle.decode_create_response r)
      × Ends IsDecodeError r (Lifecycle.decode_delete_response r)
      × Ends IsDecodeError r (Lifecycle.decode_query_offset_response r)
      × Ends IsDecodeError r (Lifecycle.decode_query_publisher_response r)
decoders-Ends input =
    let r = new_reader input in
    let b = new_reader-IsBounded input in
    (
      Bounds.Careful-peer_properties_response.at r b,
      Bounds.Careful-sasl_handshake_response.at r b,
      Bounds.Careful-sasl_authenticate_response.at r b,
      Bounds.Careful-tune.at r b,
      Bounds.Careful-open_response.at r b,
      Bounds.Careful-create_response.at r b,
      Bounds.Careful-delete_response.at r b,
      Bounds.Careful-query_offset_response.at r b,
      Bounds.Careful-query_publisher_response.at r b,
    )

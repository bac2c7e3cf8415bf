-- ===== src/Commands/Messages.antt =====
-- The commands of the protocol as one type: what is sent as the body of any of them is received. Only
-- Heartbeat, whose body is empty, is left out.
pub mod Received
pub mod Refused
use rabbitmq_ai.Common.{
  ℕ, ◌+◌, ◌^◌, ◌<◌, ◌≡◌, ap, arith, subst, append-nil, [], ◌∷◌, ◌++◌, some, true, Bool, false,
  Bytes, length, All,
}
use rabbitmq_ai.Result.{ok}
use rabbitmq_ai.Buffer.{new_reader}
use rabbitmq_ai.Buffer.Bounds.{IsDecodeError, Ends, Careful}
use rabbitmq_ai.Buffer.Reads.{new_reader-IsBounded}
use rabbitmq_ai.Buffer.Local.{Local}
use rabbitmq_ai.Codec.Carries.{Carries, Carries-run, encoded}
use rabbitmq_ai.Codec.Strings.{IsText, IsShort, IsShortOpt}
use rabbitmq_ai.Codec.Truncated.{RefusesDecode, Carries-truncated}
use rabbitmq_ai.Frame.{encode_request_frame, read_frame_auto}
use rabbitmq_ai.Frame.Key.{is_response, response_of}
use rabbitmq_ai.Frame.RoundTrip.{received, received-response}
use rabbitmq_ai.Commands.{Command}
use rabbitmq_ai.Commands.Arrays.{IsProperties}
use rabbitmq_ai.Commands.Handshake
use rabbitmq_ai.Commands.Connection
use rabbitmq_ai.Commands.Lifecycle
use rabbitmq_ai.Commands.RoundTrip
use rabbitmq_ai.Commands.RoundTrip.{RoundTrips, IsU16, IsU32, IsU64}
use rabbitmq_ai.Commands.Bounds

pub data Message : Type 0 where
  peer_properties_request : Handshake.PeerPropertiesRequest → Message
  peer_properties_response : Handshake.PeerPropertiesResponse → Message
  sasl_handshake_request : Handshake.SaslHandshakeRequest → Message
  sasl_handshake_response : Handshake.SaslHandshakeResponse → Message
  sasl_authenticate_request : Handshake.SaslAuthenticateRequest → Message
  sasl_authenticate_response : Handshake.SaslAuthenticateResponse → Message
  tune : Connection.Tune → Message
  open_request : Connection.OpenRequest → Message
  open_response : Connection.OpenResponse → Message
  close_request : Connection.CloseRequest → Message
  close_response : Connection.CloseResponse → Message
  create_request : Lifecycle.CreateRequest → Message
  create_response : Lifecycle.CreateResponse → Message
  delete_request : Lifecycle.DeleteRequest → Message
  delete_response : Lifecycle.DeleteResponse → Message
  store_offset : Lifecycle.StoreOffset → Message
  query_offset_request : Lifecycle.QueryOffsetRequest → Message
  query_offset_response : Lifecycle.QueryOffsetResponse → Message
  query_publisher_request : Lifecycle.QueryPublisherRequest → Message
  query_publisher_response : Lifecycle.QueryPublisherResponse → Message

abbrev pub Body : Message → Type 0
Body (peer_properties_request c) = Handshake.PeerPropertiesRequest
Body (peer_properties_response c) = Handshake.PeerPropertiesResponse
Body (sasl_handshake_request c) = Handshake.SaslHandshakeRequest
Body (sasl_handshake_response c) = Handshake.SaslHandshakeResponse
Body (sasl_authenticate_request c) = Handshake.SaslAuthenticateRequest
Body (sasl_authenticate_response c) = Handshake.SaslAuthenticateResponse
Body (tune c) = Connection.Tune
Body (open_request c) = Connection.OpenRequest
Body (open_response c) = Connection.OpenResponse
Body (close_request c) = Connection.CloseRequest
Body (close_response c) = Connection.CloseResponse
Body (create_request c) = Lifecycle.CreateRequest
Body (create_response c) = Lifecycle.CreateResponse
Body (delete_request c) = Lifecycle.DeleteRequest
Body (delete_response c) = Lifecycle.DeleteResponse
Body (store_offset c) = Lifecycle.StoreOffset
Body (query_offset_request c) = Lifecycle.QueryOffsetRequest
Body (query_offset_response c) = Lifecycle.QueryOffsetResponse
Body (query_publisher_request c) = Lifecycle.QueryPublisherRequest
Body (query_publisher_response c) = Lifecycle.QueryPublisherResponse

abbrev pub body_of : (m : Message) → Body m
body_of (peer_properties_request c) = c
body_of (peer_properties_response c) = c
body_of (sasl_handshake_request c) = c
body_of (sasl_handshake_response c) = c
body_of (sasl_authenticate_request c) = c
body_of (sasl_authenticate_response c) = c
body_of (tune c) = c
body_of (open_request c) = c
body_of (open_response c) = c
body_of (close_request c) = c
body_of (close_response c) = c
body_of (create_request c) = c
body_of (create_response c) = c
body_of (delete_request c) = c
body_of (delete_response c) = c
body_of (store_offset c) = c
body_of (query_offset_request c) = c
body_of (query_offset_response c) = c
body_of (query_publisher_request c) = c
body_of (query_publisher_response c) = c

abbrev pub command_of : (m : Message) → Command (Body m)
command_of (peer_properties_request c) = Handshake.peer_properties_request_command
command_of (peer_properties_response c) = Handshake.peer_properties_response_command
command_of (sasl_handshake_request c) = Handshake.sasl_handshake_request_command
command_of (sasl_handshake_response c) = Handshake.sasl_handshake_response_command
command_of (sasl_authenticate_request c) = Handshake.sasl_authenticate_request_command
command_of (sasl_authenticate_response c) = Handshake.sasl_authenticate_response_command
command_of (tune c) = Connection.tune_command
command_of (open_request c) = Connection.open_request_command
command_of (open_response c) = Connection.open_response_command
command_of (close_request c) = Connection.close_request_command
command_of (close_response c) = Connection.close_response_command
command_of (create_request c) = Lifecycle.create_request_command
command_of (create_response c) = Lifecycle.create_response_command
command_of (delete_request c) = Lifecycle.delete_request_command
command_of (delete_response c) = Lifecycle.delete_response_command
command_of (store_offset c) = Lifecycle.store_offset_command
command_of (query_offset_request c) = Lifecycle.query_offset_request_command
command_of (query_offset_response c) = Lifecycle.query_offset_response_command
command_of (query_publisher_request c) = Lifecycle.query_publisher_request_command
command_of (query_publisher_response c) = Lifecycle.query_publisher_response_command

-- Each field is in its range, and each string and array fits the wire.
abbrev pub Fits : Message → Type 0
Fits (peer_properties_request c) = IsProperties c.properties
Fits (peer_properties_response c) = (IsU16 c.response_code) × (IsProperties c.properties)
Fits (sasl_handshake_request c) = Unit
Fits (sasl_handshake_response c) =
    (IsU16 c.response_code) × (IsShort c.mechanisms) × (All IsText c.mechanisms)
Fits (sasl_authenticate_request c) = (IsText c.mechanism) × (IsShort c.sasl_opaque_data)
Fits (sasl_authenticate_response c) = (IsU16 c.response_code) × (IsShortOpt c.sasl_opaque_data)
Fits (tune c) = (IsU32 c.frame_max) × (IsU32 c.heartbeat)
Fits (open_request c) = IsText c.virtual_host
Fits (open_response c) = (IsU16 c.response_code) × (IsProperties c.connection_properties)
Fits (close_request c) = (IsU16 c.closing_code) × (IsText c.closing_reason)
Fits (close_response c) = IsU16 c.response_code
Fits (create_request c) = (IsText c.stream) × (IsProperties c.arguments)
Fits (create_response c) = IsU16 c.response_code
Fits (delete_request c) = IsText c.stream
Fits (delete_response c) = IsU16 c.response_code
Fits (store_offset c) = (IsText c.reference) × (IsText c.stream) × (IsU64 c.offset)
Fits (query_offset_request c) = (IsText c.reference) × (IsText c.stream)
Fits (query_offset_response c) = (IsU16 c.response_code) × (IsU64 c.offset)
Fits (query_publisher_request c) = (IsText c.publisher_reference) × (IsText c.stream)
Fits (query_publisher_response c) = (IsU16 c.response_code) × (IsU64 c.sequence)

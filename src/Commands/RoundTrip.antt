-- ===== src/Commands/RoundTrip.antt =====
-- Every command struct is read back from the body that it encodes to, whatever follows the body.
-- Each is a chain of its fields: one rule of `Carries` for each write and the read that meets it.
use rabbitmq_ai.Common.{ℕ, ◌^◌, ◌<◌, ◌≡◌, refl, [], ◌++◌, some, Bytes, length, All}
use rabbitmq_ai.Result.{ok, err}
use rabbitmq_ai.Buffer.{read_raw, new_reader, ◌>>=◌}
use rabbitmq_ai.Buffer.Reads.{advance}
use rabbitmq_ai.Codec.{read_u32, read_i32, read_bytes, read_array_prefix}
use rabbitmq_ai.Codec.Carries.{
  Carries, encoded, Carries-pure, Carries-bind, Carries-map, Carries-two, Carries-three,
  Carries-unless_empty,
}
use rabbitmq_ai.Buffer.Bounds.{truncated}
use rabbitmq_ai.Codec.Words.{Carries-u16, Carries-u32, Carries-u64}
use rabbitmq_ai.Codec.Strings.{
  IsText, IsShort, IsShortOpt, Carries-string_required, Carries-bytes_raw, Carries-bytes,
  Carries-array_prefix,
}
use rabbitmq_ai.Commands.{Command, decode_kv_array}
use rabbitmq_ai.Commands.Arrays.{IsProperties, Carries-kv_array, Carries-string_loop}
use rabbitmq_ai.Commands.Handshake
use rabbitmq_ai.Commands.Connection
use rabbitmq_ai.Commands.Lifecycle

-- The body of `x`, decoded from a fresh cursor with `rest` behind it, gives `x` and stops at `rest`.
abbrev pub RoundTrips : {Cmd : Type 0} → Command Cmd → Cmd → Bytes → Type 0
RoundTrips c x rest =
    let body = encoded (c.encode_body x) in
    c.decode_body (new_reader (body ++ rest))
    ≡ (ok x, advance (length body) (new_reader (body ++ rest)))

abbrev CommandCarries : {Cmd : Type 0} → Command Cmd → Cmd → Type 0
CommandCarries c x = Carries (c.encode_body x) c.decode_body x

-- What a field may hold.
abbrev pub IsU16 : ℕ → Type 0
IsU16 n = n < 2 ^ 16

abbrev pub IsU32 : ℕ → Type 0
IsU32 n = n < 2 ^ 32

abbrev pub IsU64 : ℕ → Type 0
IsU64 n = n < 2 ^ 64

-- Neither reads anything from an empty input.
read_bytes_empty : read_bytes (new_reader []) ≡ (err truncated, new_reader [])
unfolding read_bytes read_i32 read_u32 read_raw ◌>>=◌ new_reader
read_bytes_empty = refl

kv_array_empty : decode_kv_array (new_reader []) ≡ (err truncated, new_reader [])
unfolding decode_kv_array read_array_prefix read_i32 read_u32 read_raw ◌>>=◌ new_reader
kv_array_empty = refl

-- The handshake.

pub Carries-peer_properties_request :
    (c : Handshake.PeerPropertiesRequest)
    → IsProperties c.properties
    → CommandCarries Handshake.peer_properties_request_command c
unfolding Handshake.encode_peer_properties_request Handshake.decode_peer_properties_request
Carries-peer_properties_request c h = Carries-map _ _ _ _ (Carries-kv_array c.properties h)

pub Carries-peer_properties_response :
    (c : Handshake.PeerPropertiesResponse)
    → IsU16 c.response_code
    → IsProperties c.properties
    → CommandCarries Handshake.peer_properties_response_command c
unfolding Handshake.encode_peer_properties_response Handshake.decode_peer_properties_response
Carries-peer_properties_response c h i =
    Carries-two _ _ _ _ _ _ _ (Carries-u16 c.response_code h) (Carries-kv_array c.properties i)

pub Carries-sasl_handshake_request :
    (c : Handshake.SaslHandshakeRequest) → CommandCarries Handshake.sasl_handshake_request_command c
unfolding Handshake.encode_sasl_handshake_request Handshake.decode_sasl_handshake_request
Carries-sasl_handshake_request Handshake.sasl_handshake_request = Carries-pure _

pub Carries-sasl_handshake_response :
    (c : Handshake.SaslHandshakeResponse)
    → IsU16 c.response_code
    → IsShort c.mechanisms
    → All IsText c.mechanisms
    → CommandCarries Handshake.sasl_handshake_response_command c
unfolding Handshake.encode_sasl_handshake_response Handshake.decode_sasl_handshake_response
Carries-sasl_handshake_response c h i j =
    Carries-bind _ _ _ _ c.response_code c (Carries-u16 c.response_code h) (
      Carries-bind _ _ _ _ (length c.mechanisms) c (Carries-array_prefix (length c.mechanisms) i)
        (Carries-map _ _ _ c.mechanisms (Carries-string_loop c.mechanisms [] j)))

pub Carries-sasl_authenticate_request :
    (c : Handshake.SaslAuthenticateRequest)
    → IsText c.mechanism
    → IsShort c.sasl_opaque_data
    → CommandCarries Handshake.sasl_authenticate_request_command c
unfolding Handshake.encode_sasl_authenticate_request Handshake.decode_sasl_authenticate_request
    Handshake.or_empty
Carries-sasl_authenticate_request c h i =
    Carries-bind _ _ _ _ c.mechanism c (Carries-string_required c.mechanism h)
      (Carries-map _ _ _ (some c.sasl_opaque_data) (Carries-bytes_raw c.sasl_opaque_data i))

pub Carries-sasl_authenticate_response :
    (c : Handshake.SaslAuthenticateResponse)
    → IsU16 c.response_code
    → IsShortOpt c.sasl_opaque_data
    → CommandCarries Handshake.sasl_authenticate_response_command c
unfolding Handshake.encode_sasl_authenticate_response Handshake.decode_sasl_authenticate_response
Carries-sasl_authenticate_response c h i =
    Carries-bind _ _ _ _ c.response_code c (Carries-u16 c.response_code h) (
      Carries-unless_empty _ _ read_bytes _ c truncated _ read_bytes_empty
        (Carries-map _ _ _ c.sasl_opaque_data (Carries-bytes c.sasl_opaque_data i)))

pub Carries-tune :
    (c : Connection.Tune)
    → IsU32 c.frame_max
    → IsU32 c.heartbeat
    → CommandCarries Connection.tune_command c
unfolding Connection.encode_tune Connection.decode_tune
Carries-tune c h i =
    Carries-two _ _ _ _ _ _ _ (Carries-u32 c.frame_max h) (Carries-u32 c.heartbeat i)

pub Carries-open_request :
    (c : Connection.OpenRequest)
    → IsText c.virtual_host
    → CommandCarries Connection.open_request_command c
unfolding Connection.encode_open_request Connection.decode_open_request
Carries-open_request c h = Carries-map _ _ _ _ (Carries-string_required c.virtual_host h)

pub Carries-open_response :
    (c : Connection.OpenResponse)
    → IsU16 c.response_code
    → IsProperties c.connection_properties
    → CommandCarries Connection.open_response_command c
unfolding Connection.encode_open_response Connection.decode_open_response
Carries-open_response c h i =
    Carries-bind _ _ _ _ c.response_code c (Carries-u16 c.response_code h) (
      Carries-unless_empty _ _ decode_kv_array _ c truncated _ kv_array_empty
        (Carries-map _ _ _ c.connection_properties (Carries-kv_array c.connection_properties i)))

pub Carries-close_request :
    (c : Connection.CloseRequest)
    → IsU16 c.closing_code
    → IsText c.closing_reason
    → CommandCarries Connection.close_request_command c
unfolding Connection.encode_close_request Connection.decode_close_request
Carries-close_request c h i =
    Carries-two _ _ _ _ _ _ _ (Carries-u16 c.closing_code h)
      (Carries-string_required c.closing_reason i)

pub Carries-close_response :
    (c : Connection.CloseResponse)
    → IsU16 c.response_code
    → CommandCarries Connection.close_response_command c
unfolding Connection.encode_close_response Connection.decode_close_response
Carries-close_response c h = Carries-map _ _ _ _ (Carries-u16 c.response_code h)

-- The stream operations.

pub Carries-create_request :
    (c : Lifecycle.CreateRequest)
    → IsText c.stream
    → IsProperties c.arguments
    → CommandCarries Lifecycle.create_request_command c
unfolding Lifecycle.encode_create_request Lifecycle.decode_create_request
Carries-create_request c h i =
    Carries-two _ _ _ _ _ _ _ (Carries-string_required c.stream h) (Carries-kv_array c.arguments i)

pub Carries-create_response :
    (c : Lifecycle.CreateResponse)
    → IsU16 c.response_code
    → CommandCarries Lifecycle.create_response_command c
unfolding Lifecycle.encode_create_response Lifecycle.decode_create_response
Carries-create_response c h = Carries-map _ _ _ _ (Carries-u16 c.response_code h)

pub Carries-delete_request :
    (c : Lifecycle.DeleteRequest)
    → IsText c.stream
    → CommandCarries Lifecycle.delete_request_command c
unfolding Lifecycle.encode_delete_request Lifecycle.decode_delete_request
Carries-delete_request c h = Carries-map _ _ _ _ (Carries-string_required c.stream h)

pub Carries-delete_response :
    (c : Lifecycle.DeleteResponse)
    → IsU16 c.response_code
    → CommandCarries Lifecycle.delete_response_command c
unfolding Lifecycle.encode_delete_response Lifecycle.decode_delete_response
Carries-delete_response c h = Carries-map _ _ _ _ (Carries-u16 c.response_code h)

pub Carries-store_offset :
    (c : Lifecycle.StoreOffset)
    → IsText c.reference
    → IsText c.stream
    → IsU64 c.offset
    → CommandCarries Lifecycle.store_offset_command c
unfolding Lifecycle.encode_store_offset Lifecycle.decode_store_offset
Carries-store_offset c h i j =
    Carries-three _ _ _ _ _ _ _ _ _ _ (Carries-string_required c.reference h)
      (Carries-string_required c.stream i) (Carries-u64 c.offset j)

pub Carries-query_offset_request :
    (c : Lifecycle.QueryOffsetRequest)
    → IsText c.reference
    → IsText c.stream
    → CommandCarries Lifecycle.query_offset_request_command c
unfolding Lifecycle.encode_query_offset_request Lifecycle.decode_query_offset_request
Carries-query_offset_request c h i =
    Carries-two _ _ _ _ _ _ _ (Carries-string_required c.reference h)
      (Carries-string_required c.stream i)

pub Carries-query_offset_response :
    (c : Lifecycle.QueryOffsetResponse)
    → IsU16 c.response_code
    → IsU64 c.offset
    → CommandCarries Lifecycle.query_offset_response_command c
unfolding Lifecycle.encode_query_offset_response Lifecycle.decode_query_offset_response
Carries-query_offset_response c h i =
    Carries-two _ _ _ _ _ _ _ (Carries-u16 c.response_code h) (Carries-u64 c.offset i)

pub Carries-query_publisher_request :
    (c : Lifecycle.QueryPublisherRequest)
    → IsText c.publisher_reference
    → IsText c.stream
    → CommandCarries Lifecycle.query_publisher_request_command c
unfolding Lifecycle.encode_query_publisher_request Lifecycle.decode_query_publisher_request
Carries-query_publisher_request c h i =
    Carries-two _ _ _ _ _ _ _ (Carries-string_required c.publisher_reference h)
      (Carries-string_required c.stream i)

pub Carries-query_publisher_response :
    (c : Lifecycle.QueryPublisherResponse)
    → IsU16 c.response_code
    → IsU64 c.sequence
    → CommandCarries Lifecycle.query_publisher_response_command c
unfolding Lifecycle.encode_query_publisher_response Lifecycle.decode_query_publisher_response
Carries-query_publisher_response c h i =
    Carries-two _ _ _ _ _ _ _ (Carries-u16 c.response_code h) (Carries-u64 c.sequence i)

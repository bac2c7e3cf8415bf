-- ===== src/Commands/Handshake.antt =====
-- include/stream/commands/handshake.hpp: the structs of PeerProperties,
-- SaslHandshake and SaslAuthenticate.
use rabbitmq_ai.Common.{ℕ, Option, none, some, List, [], Bytes, if◌then◌else◌, length}
use rabbitmq_ai.Common.Int.{to_signed, half32}
use rabbitmq_ai.Buffer.{Read, pure, empty, gets, ◌>>=◌}
use rabbitmq_ai.Codec.{
  Write, write_u16, write_string, write_bytes_raw, write_bytes, write_array_prefix, read_u16,
  read_string_required, read_bytes, read_array_prefix,
}
use rabbitmq_ai.Frame.Key
use rabbitmq_ai.Frame.Key.{response_of}
use rabbitmq_ai.Commands.{
  Command, KeyValue, encode_kv_array, decode_kv_array, encode_string_loop, decode_string_loop,
}

pub record PeerPropertiesRequest : Type 0 where
  pub properties : List KeyValue

unfoldable pub encode_peer_properties_request : PeerPropertiesRequest → Write
encode_peer_properties_request c w = encode_kv_array c.properties w

unfoldable pub decode_peer_properties_request : Read PeerPropertiesRequest
decode_peer_properties_request = do kvs ← decode_kv_array; pure (record { properties = kvs })

instance abbrev pub peer_properties_request_command : Command PeerPropertiesRequest
peer_properties_request_command = record {
  key = Key.peer_properties;
  version = 1;
  encode_body = encode_peer_properties_request;
  decode_body = decode_peer_properties_request;
}

pub record PeerPropertiesResponse : Type 0 where
  pub response_code : ℕ
  pub properties : List KeyValue

unfoldable pub encode_peer_properties_response : PeerPropertiesResponse → Write
encode_peer_properties_response c w = encode_kv_array c.properties (write_u16 c.response_code w)

unfoldable pub decode_peer_properties_response : Read PeerPropertiesResponse
decode_peer_properties_response = do
  rc ← read_u16
  kvs ← decode_kv_array
  pure (record { response_code = rc; properties = kvs })

instance abbrev pub peer_properties_response_command : Command PeerPropertiesResponse
peer_properties_response_command = record {
  key = response_of Key.peer_properties;
  version = 1;
  encode_body = encode_peer_properties_response;
  decode_body = decode_peer_properties_response;
}

pub data SaslHandshakeRequest : Type 0 where
  sasl_handshake_request : SaslHandshakeRequest

unfoldable pub encode_sasl_handshake_request : SaslHandshakeRequest → Write
encode_sasl_handshake_request c w = w

unfoldable pub decode_sasl_handshake_request : Read SaslHandshakeRequest
decode_sasl_handshake_request = pure sasl_handshake_request

instance abbrev pub sasl_handshake_request_command : Command SaslHandshakeRequest
sasl_handshake_request_command = record {
  key = Key.sasl_handshake;
  version = 1;
  encode_body = encode_sasl_handshake_request;
  decode_body = decode_sasl_handshake_request;
}

pub record SaslHandshakeResponse : Type 0 where
  pub response_code : ℕ
  pub mechanisms : List Bytes

unfoldable pub encode_sasl_handshake_response : SaslHandshakeResponse → Write
encode_sasl_handshake_response c w =
    encode_string_loop c.mechanisms
      (write_array_prefix (to_signed half32 (length c.mechanisms)) (write_u16 c.response_code w))

unfoldable pub decode_sasl_handshake_response : Read SaslHandshakeResponse
decode_sasl_handshake_response = do
  rc ← read_u16
  count ← read_array_prefix
  mechanisms ← decode_string_loop count []
  pure (record { response_code = rc; mechanisms = mechanisms })

instance abbrev pub sasl_handshake_response_command : Command SaslHandshakeResponse
sasl_handshake_response_command = record {
  key = response_of Key.sasl_handshake;
  version = 1;
  encode_body = encode_sasl_handshake_response;
  decode_body = decode_sasl_handshake_response;
}

pub record SaslAuthenticateRequest : Type 0 where
  pub mechanism : Bytes
  pub sasl_opaque_data : Bytes

unfoldable pub encode_sasl_authenticate_request : SaslAuthenticateRequest → Write
encode_sasl_authenticate_request c w =
    write_bytes_raw c.sasl_opaque_data (write_string c.mechanism w)

-- `if (data.value().has_value()) req.sasl_opaque_data = …`; a null leaves the vector empty.
unfoldable pub or_empty : Option Bytes → Bytes
or_empty none = []
or_empty (some b) = b

unfoldable pub decode_sasl_authenticate_request : Read SaslAuthenticateRequest
decode_sasl_authenticate_request = do
  mech ← read_string_required
  opaque ← read_bytes
  pure (record { mechanism = mech; sasl_opaque_data = or_empty opaque })

instance abbrev pub sasl_authenticate_request_command : Command SaslAuthenticateRequest
sasl_authenticate_request_command = record {
  key = Key.sasl_authenticate;
  version = 1;
  encode_body = encode_sasl_authenticate_request;
  decode_body = decode_sasl_authenticate_request;
}

pub record SaslAuthenticateResponse : Type 0 where
  pub response_code : ℕ
  pub sasl_opaque_data : Option Bytes

unfoldable pub encode_sasl_authenticate_response : SaslAuthenticateResponse → Write
encode_sasl_authenticate_response c w = write_bytes c.sasl_opaque_data (write_u16 c.response_code w)

-- Some brokers omit the data: it is read only where bytes are left.
unfoldable pub decode_sasl_authenticate_response : Read SaslAuthenticateResponse
decode_sasl_authenticate_response = do
  rc ← read_u16
  done ← gets (λ r. empty r)
  opaque ← (if done then pure none else read_bytes)
  pure (record { response_code = rc; sasl_opaque_data = opaque })

instance abbrev pub sasl_authenticate_response_command : Command SaslAuthenticateResponse
sasl_authenticate_response_command = record {
  key = response_of Key.sasl_authenticate;
  version = 1;
  encode_body = encode_sasl_authenticate_response;
  decode_body = decode_sasl_authenticate_response;
}

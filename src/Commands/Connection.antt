-- ===== src/Commands/Connection.antt =====
-- include/stream/commands/handshake.hpp: the structs of Tune, Open, Close
-- and Heartbeat.
use rabbitmq_ai.Common.{ℕ, List, [], Bytes, if◌then◌else◌}
use rabbitmq_ai.Buffer.{Read, pure, empty, gets, ◌>>=◌}
use rabbitmq_ai.Codec.{
  Write, write_u16, write_u32, write_string, read_u16, read_u32, read_string_required,
}
use rabbitmq_ai.Frame.Key
use rabbitmq_ai.Frame.Key.{response_of}
use rabbitmq_ai.Commands.{Command, KeyValue, encode_kv_array, decode_kv_array}

pub record Tune : Type 0 where
  pub frame_max : ℕ
  pub heartbeat : ℕ

unfoldable pub encode_tune : Tune → Write
encode_tune c w = write_u32 c.heartbeat (write_u32 c.frame_max w)

unfoldable pub decode_tune : Read Tune
decode_tune = do fm ← read_u32; hb ← read_u32; pure (record { frame_max = fm; heartbeat = hb })

instance abbrev pub tune_command : Command Tune
tune_command = record {
  key = Key.tune;
  version = 1;
  encode_body = encode_tune;
  decode_body = decode_tune;
}

pub record OpenRequest : Type 0 where
  pub virtual_host : Bytes

unfoldable pub encode_open_request : OpenRequest → Write
encode_open_request c w = write_string c.virtual_host w

unfoldable pub decode_open_request : Read OpenRequest
decode_open_request = do v ← read_string_required; pure (record { virtual_host = v })

instance abbrev pub open_request_command : Command OpenRequest
open_request_command = record {
  key = Key.open_key;
  version = 1;
  encode_body = encode_open_request;
  decode_body = decode_open_request;
}

pub record OpenResponse : Type 0 where
  pub response_code : ℕ
  pub connection_properties : List KeyValue

unfoldable pub encode_open_response : OpenResponse → Write
encode_open_response c w = encode_kv_array c.connection_properties (write_u16 c.response_code w)

-- Some brokers omit the properties on failure.
unfoldable pub decode_open_response : Read OpenResponse
decode_open_response = do
  rc ← read_u16
  done ← gets (λ r. empty r)
  kvs ← (if done then pure [] else decode_kv_array)
  pure (record { response_code = rc; connection_properties = kvs })

instance abbrev pub open_response_command : Command OpenResponse
open_response_command = record {
  key = response_of Key.open_key;
  version = 1;
  encode_body = encode_open_response;
  decode_body = decode_open_response;
}

pub record CloseRequest : Type 0 where
  pub closing_code : ℕ
  pub closing_reason : Bytes

unfoldable pub encode_close_request : CloseRequest → Write
encode_close_request c w = write_string c.closing_reason (write_u16 c.closing_code w)

unfoldable pub decode_close_request : Read CloseRequest
decode_close_request = do
  rc ← read_u16
  reason ← read_string_required
  pure (record { closing_code = rc; closing_reason = reason })

instance abbrev pub close_request_command : Command CloseRequest
close_request_command = record {
  key = Key.close;
  version = 1;
  encode_body = encode_close_request;
  decode_body = decode_close_request;
}

pub record CloseResponse : Type 0 where
  pub response_code : ℕ

unfoldable pub encode_close_response : CloseResponse → Write
encode_close_response c w = write_u16 c.response_code w

unfoldable pub decode_close_response : Read CloseResponse
decode_close_response = do rc ← read_u16; pure (record { response_code = rc })

instance abbrev pub close_response_command : Command CloseResponse
close_response_command = record {
  key = response_of Key.close;
  version = 1;
  encode_body = encode_close_response;
  decode_body = decode_close_response;
}

pub data Heartbeat : Type 0 where
  heartbeat_frame : Heartbeat

unfoldable pub encode_heartbeat : Heartbeat → Write
encode_heartbeat c w = w

unfoldable pub decode_heartbeat : Read Heartbeat
decode_heartbeat = pure heartbeat_frame

instance abbrev pub heartbeat_command : Command Heartbeat
heartbeat_command = record {
  key = Key.heartbeat;
  version = 1;
  encode_body = encode_heartbeat;
  decode_body = decode_heartbeat;
}

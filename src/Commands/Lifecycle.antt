-- ===== src/Commands/Lifecycle.antt =====
-- include/stream/commands/lifecycle.hpp: the command structs of the stream operations.
use rabbitmq_ai.Common.{ℕ, List, Bytes}
use rabbitmq_ai.Buffer.{Read, pure, ◌>>=◌}
use rabbitmq_ai.Codec.{
  Write, write_u16, write_u64, write_string, read_u16, read_u64, read_string_required,
}
use rabbitmq_ai.Frame.Key
use rabbitmq_ai.Frame.Key.{response_of}
use rabbitmq_ai.Commands.{Command, KeyValue, encode_kv_array, decode_kv_array}

-- The argument array is written and read by the same loop as a property array.
pub record CreateRequest : Type 0 where
  pub stream : Bytes
  pub arguments : List KeyValue

unfoldable pub encode_create_request : CreateRequest → Write
encode_create_request c w = encode_kv_array c.arguments (write_string c.stream w)

unfoldable pub decode_create_request : Read CreateRequest
decode_create_request = do
  s ← read_string_required
  arguments ← decode_kv_array
  pure (record { stream = s; arguments = arguments })

instance abbrev pub create_request_command : Command CreateRequest
create_request_command = record {
  key = Key.create;
  version = 1;
  encode_body = encode_create_request;
  decode_body = decode_create_request;
}

pub record CreateResponse : Type 0 where
  pub response_code : ℕ

unfoldable pub encode_create_response : CreateResponse → Write
encode_create_response c w = write_u16 c.response_code w

unfoldable pub decode_create_response : Read CreateResponse
decode_create_response = do rc ← read_u16; pure (record { response_code = rc })

instance abbrev pub create_response_command : Command CreateResponse
create_response_command = record {
  key = response_of Key.create;
  version = 1;
  encode_body = encode_create_response;
  decode_body = decode_create_response;
}

pub record DeleteRequest : Type 0 where
  pub stream : Bytes

unfoldable pub encode_delete_request : DeleteRequest → Write
encode_delete_request c w = write_string c.stream w

unfoldable pub decode_delete_request : Read DeleteRequest
decode_delete_request = do s ← read_string_required; pure (record { stream = s })

instance abbrev pub delete_request_command : Command DeleteRequest
delete_request_command = record {
  key = Key.delete;
  version = 1;
  encode_body = encode_delete_request;
  decode_body = decode_delete_request;
}

pub record DeleteResponse : Type 0 where
  pub response_code : ℕ

unfoldable pub encode_delete_response : DeleteResponse → Write
encode_delete_response c w = write_u16 c.response_code w

unfoldable pub decode_delete_response : Read DeleteResponse
decode_delete_response = do rc ← read_u16; pure (record { response_code = rc })

instance abbrev pub delete_response_command : Command DeleteResponse
delete_response_command = record {
  key = response_of Key.delete;
  version = 1;
  encode_body = encode_delete_response;
  decode_body = decode_delete_response;
}

pub record StoreOffset : Type 0 where
  pub reference : Bytes
  pub stream : Bytes
  pub offset : ℕ

unfoldable pub encode_store_offset : StoreOffset → Write
encode_store_offset c w = write_u64 c.offset (write_string c.stream (write_string c.reference w))

unfoldable pub decode_store_offset : Read StoreOffset
decode_store_offset = do
  reference ← read_string_required
  stream ← read_string_required
  off ← read_u64
  pure (record { reference = reference; stream = stream; offset = off })

instance abbrev pub store_offset_command : Command StoreOffset
store_offset_command = record {
  key = Key.store_offset;
  version = 1;
  encode_body = encode_store_offset;
  decode_body = decode_store_offset;
}

pub record QueryOffsetRequest : Type 0 where
  pub reference : Bytes
  pub stream : Bytes

unfoldable pub encode_query_offset_request : QueryOffsetRequest → Write
encode_query_offset_request c w = write_string c.stream (write_string c.reference w)

unfoldable pub decode_query_offset_request : Read QueryOffsetRequest
decode_query_offset_request = do
  reference ← read_string_required
  stream ← read_string_required
  pure (record { reference = reference; stream = stream })

instance abbrev pub query_offset_request_command : Command QueryOffsetRequest
query_offset_request_command = record {
  key = Key.query_offset;
  version = 1;
  encode_body = encode_query_offset_request;
  decode_body = decode_query_offset_request;
}

pub record QueryOffsetResponse : Type 0 where
  pub response_code : ℕ
  pub offset : ℕ

unfoldable pub encode_query_offset_response : QueryOffsetResponse → Write
encode_query_offset_response c w = write_u64 c.offset (write_u16 c.response_code w)

unfoldable pub decode_query_offset_response : Read QueryOffsetResponse
decode_query_offset_response = do
  rc ← read_u16
  off ← read_u64
  pure (record { response_code = rc; offset = off })

instance abbrev pub query_offset_response_command : Command QueryOffsetResponse
query_offset_response_command = record {
  key = response_of Key.query_offset;
  version = 1;
  encode_body = encode_query_offset_response;
  decode_body = decode_query_offset_response;
}

pub record QueryPublisherRequest : Type 0 where
  pub publisher_reference : Bytes
  pub stream : Bytes

unfoldable pub encode_query_publisher_request : QueryPublisherRequest → Write
encode_query_publisher_request c w = write_string c.stream (write_string c.publisher_reference w)

unfoldable pub decode_query_publisher_request : Read QueryPublisherRequest
decode_query_publisher_request = do
  reference ← read_string_required
  stream ← read_string_required
  pure (record { publisher_reference = reference; stream = stream })

instance abbrev pub query_publisher_request_command : Command QueryPublisherRequest
query_publisher_request_command = record {
  key = Key.query_publisher_sequence;
  version = 1;
  encode_body = encode_query_publisher_request;
  decode_body = decode_query_publisher_request;
}

pub record QueryPublisherResponse : Type 0 where
  pub response_code : ℕ
  pub sequence : ℕ

unfoldable pub encode_query_publisher_response : QueryPublisherResponse → Write
encode_query_publisher_response c w = write_u64 c.sequence (write_u16 c.response_code w)

unfoldable pub decode_query_publisher_response : Read QueryPublisherResponse
decode_query_publisher_response = do
  rc ← read_u16
  seq ← read_u64
  pure (record { response_code = rc; sequence = seq })

instance abbrev pub query_publisher_response_command : Command QueryPublisherResponse
query_publisher_response_command = record {
  key = response_of Key.query_publisher_sequence;
  version = 1;
  encode_body = encode_query_publisher_response;
  decode_body = decode_query_publisher_response;
}

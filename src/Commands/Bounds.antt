-- ===== src/Commands/Bounds.antt =====
-- Every command decoder is `Careful`, and all but the two that test for an empty input are `Local`.
use rabbitmq_ai.Common.{[]}
use rabbitmq_ai.Buffer.Bounds.{
  IsDecodeError, Careful, Careful-pure, Careful-gets, Careful-bind, Careful-if, Careful-map,
  Careful-two,
}
use rabbitmq_ai.Buffer.Local.{Local, Local-pure, Local-bind, Local-map, Local-two}
use rabbitmq_ai.Codec.Bounds.{
  Careful-read_u16, Careful-read_u32, Careful-read_u64, Careful-read_string_required,
  Careful-read_bytes, Careful-read_array_prefix, Local-read_u16, Local-read_u32, Local-read_u64,
  Local-read_string_required, Local-read_bytes, Local-read_array_prefix,
}
use rabbitmq_ai.Commands.Arrays.{
  Careful-kv_array, Careful-string_loop, Local-kv_array, Local-string_loop,
}
use rabbitmq_ai.Commands.Handshake.{
  decode_peer_properties_request, decode_peer_properties_response, decode_sasl_handshake_request,
  decode_sasl_handshake_response, decode_sasl_authenticate_request,
  decode_sasl_authenticate_response,
}
use rabbitmq_ai.Commands.Connection.{
  decode_tune, decode_open_request, decode_open_response, decode_close_request,
  decode_close_response, decode_heartbeat,
}
use rabbitmq_ai.Commands.Lifecycle.{
  decode_create_request, decode_create_response, decode_delete_request, decode_delete_response,
  decode_store_offset, decode_query_offset_request, decode_query_offset_response,
  decode_query_publisher_request, decode_query_publisher_response,
}

pub Careful-peer_properties_request : Careful IsDecodeError decode_peer_properties_request
unfolding decode_peer_properties_request
Careful-peer_properties_request = Careful-map _ _ Careful-kv_array

pub Careful-peer_properties_response : Careful IsDecodeError decode_peer_properties_response
unfolding decode_peer_properties_response
Careful-peer_properties_response = Careful-two _ _ _ Careful-read_u16 Careful-kv_array

pub Careful-sasl_handshake_request : Careful IsDecodeError decode_sasl_handshake_request
unfolding decode_sasl_handshake_request
Careful-sasl_handshake_request = Careful-pure _

pub Careful-sasl_handshake_response : Careful IsDecodeError decode_sasl_handshake_response
unfolding decode_sasl_handshake_response
Careful-sasl_handshake_response =
    Careful-bind _ _ Careful-read_u16 λ rc.
      Careful-bind _ _ Careful-read_array_prefix λ n. Careful-map _ _ (Careful-string_loop n [])

pub Careful-sasl_authenticate_request : Careful IsDecodeError decode_sasl_authenticate_request
unfolding decode_sasl_authenticate_request
Careful-sasl_authenticate_request =
    Careful-two _ _ _ Careful-read_string_required Careful-read_bytes

pub Careful-sasl_authenticate_response : Careful IsDecodeError decode_sasl_authenticate_response
unfolding decode_sasl_authenticate_response
Careful-sasl_authenticate_response = Careful-bind _ _ Careful-read_u16 λ rc.
    Careful-bind _ _ (Careful-gets _)
      λ done. Careful-map _ _ (Careful-if done _ _ (Careful-pure _) Careful-read_bytes)

pub Careful-tune : Careful IsDecodeError decode_tune
unfolding decode_tune
Careful-tune = Careful-two _ _ _ Careful-read_u32 Careful-read_u32

pub Careful-open_request : Careful IsDecodeError decode_open_request
unfolding decode_open_request
Careful-open_request = Careful-map _ _ Careful-read_string_required

pub Careful-open_response : Careful IsDecodeError decode_open_response
unfolding decode_open_response
Careful-open_response = Careful-bind _ _ Careful-read_u16 λ rc.
    Careful-bind _ _ (Careful-gets _)
      λ done. Careful-map _ _ (Careful-if done _ _ (Careful-pure _) Careful-kv_array)

pub Careful-close_request : Careful IsDecodeError decode_close_request
unfolding decode_close_request
Careful-close_request = Careful-two _ _ _ Careful-read_u16 Careful-read_string_required

pub Careful-close_response : Careful IsDecodeError decode_close_response
unfolding decode_close_response
Careful-close_response = Careful-map _ _ Careful-read_u16

pub Careful-heartbeat : Careful IsDecodeError decode_heartbeat
unfolding decode_heartbeat
Careful-heartbeat = Careful-pure _

pub Careful-create_request : Careful IsDecodeError decode_create_request
unfolding decode_create_request
Careful-create_request = Careful-two _ _ _ Careful-read_string_required Careful-kv_array

pub Careful-create_response : Careful IsDecodeError decode_create_response
unfolding decode_create_response
Careful-create_response = Careful-map _ _ Careful-read_u16

pub Careful-delete_request : Careful IsDecodeError decode_delete_request
unfolding decode_delete_request
Careful-delete_request = Careful-map _ _ Careful-read_string_required

pub Careful-delete_response : Careful IsDecodeError decode_delete_response
unfolding decode_delete_response
Careful-delete_response = Careful-map _ _ Careful-read_u16

pub Careful-store_offset : Careful IsDecodeError decode_store_offset
unfolding decode_store_offset
Careful-store_offset =
    Careful-bind _ _ Careful-read_string_required
      λ x. Careful-two _ _ _ Careful-read_string_required Careful-read_u64

pub Careful-query_offset_request : Careful IsDecodeError decode_query_offset_request
unfolding decode_query_offset_request
Careful-query_offset_request =
    Careful-two _ _ _ Careful-read_string_required Careful-read_string_required

pub Careful-query_offset_response : Careful IsDecodeError decode_query_offset_response
unfolding decode_query_offset_response
Careful-query_offset_response = Careful-two _ _ _ Careful-read_u16 Careful-read_u64

pub Careful-query_publisher_request : Careful IsDecodeError decode_query_publisher_request
unfolding decode_query_publisher_request
Careful-query_publisher_request =
    Careful-two _ _ _ Careful-read_string_required Careful-read_string_required

pub Careful-query_publisher_response : Careful IsDecodeError decode_query_publisher_response
unfolding decode_query_publisher_response
Careful-query_publisher_response = Careful-two _ _ _ Careful-read_u16 Careful-read_u64

pub Local-peer_properties_request : Local decode_peer_properties_request
unfolding decode_peer_properties_request
Local-peer_properties_request = Local-map _ _ Local-kv_array

pub Local-peer_properties_response : Local decode_peer_properties_response
unfolding decode_peer_properties_response
Local-peer_properties_response = Local-two _ _ _ Local-read_u16 Local-kv_array

pub Local-sasl_handshake_request : Local decode_sasl_handshake_request
unfolding decode_sasl_handshake_request
Local-sasl_handshake_request = Local-pure _

pub Local-sasl_handshake_response : Local decode_sasl_handshake_response
unfolding decode_sasl_handshake_response
Local-sasl_handshake_response =
    Local-bind _ _ Local-read_u16
      λ rc. Local-bind _ _ Local-read_array_prefix λ n. Local-map _ _ (Local-string_loop n [])

pub Local-sasl_authenticate_request : Local decode_sasl_authenticate_request
unfolding decode_sasl_authenticate_request
Local-sasl_authenticate_request = Local-two _ _ _ Local-read_string_required Local-read_bytes

pub Local-tune : Local decode_tune
unfolding decode_tune
Local-tune = Local-two _ _ _ Local-read_u32 Local-read_u32

pub Local-open_request : Local decode_open_request
unfolding decode_open_request
Local-open_request = Local-map _ _ Local-read_string_required

pub Local-close_request : Local decode_close_request
unfolding decode_close_request
Local-close_request = Local-two _ _ _ Local-read_u16 Local-read_string_required

pub Local-close_response : Local decode_close_response
unfolding decode_close_response
Local-close_response = Local-map _ _ Local-read_u16

pub Local-heartbeat : Local decode_heartbeat
unfolding decode_heartbeat
Local-heartbeat = Local-pure _

pub Local-create_request : Local decode_create_request
unfolding decode_create_request
Local-create_request = Local-two _ _ _ Local-read_string_required Local-kv_array

pub Local-create_response : Local decode_create_response
unfolding decode_create_response
Local-create_response = Local-map _ _ Local-read_u16

pub Local-delete_request : Local decode_delete_request
unfolding decode_delete_request
Local-delete_request = Local-map _ _ Local-read_string_required

pub Local-delete_response : Local decode_delete_response
unfolding decode_delete_response
Local-delete_response = Local-map _ _ Local-read_u16

pub Local-store_offset : Local decode_store_offset
unfolding decode_store_offset
Local-store_offset =
    Local-bind _ _ Local-read_string_required
      λ x. Local-two _ _ _ Local-read_string_required Local-read_u64

pub Local-query_offset_request : Local decode_query_offset_request
unfolding decode_query_offset_request
Local-query_offset_request = Local-two _ _ _ Local-read_string_required Local-read_string_required

pub Local-query_offset_response : Local decode_query_offset_response
unfolding decode_query_offset_response
Local-query_offset_response = Local-two _ _ _ Local-read_u16 Local-read_u64

pub Local-query_publisher_request : Local decode_query_publisher_request
unfolding decode_query_publisher_request
Local-query_publisher_request =
    Local-two _ _ _ Local-read_string_required Local-read_string_required

pub Local-query_publisher_response : Local decode_query_publisher_response
unfolding decode_query_publisher_response
Local-query_publisher_response = Local-two _ _ _ Local-read_u16 Local-read_u64

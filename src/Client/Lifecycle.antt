-- ===== src/Client/Lifecycle.antt =====
-- src/client.cpp, section Lifecycle commands: the stream operations of the public API.
use rabbitmq_ai.Common.{ℕ, Bool, Option, none, some, List, ◌++◌, ◌==◌, if◌then◌else◌, Bytes, text}
use rabbitmq_ai.Errors.{Kind, stream_error, stream_error_code}
use rabbitmq_ai.Result.{Result, ok, err}
use rabbitmq_ai.Buffer.{new_writer, new_reader}
use rabbitmq_ai.Frame.{encode_oneway_frame}
use rabbitmq_ai.Frame.Key
use rabbitmq_ai.Frame.ResponseCode
use rabbitmq_ai.Transport.{Transport, Io, from, ◌>>=◌, ◌>>◌}
use rabbitmq_ai.Dispatcher.Steps.{Operation}
use rabbitmq_ai.Commands.{KeyValue}
use rabbitmq_ai.Commands.Lifecycle.{
  encode_create_request, decode_create_response, encode_delete_request, decode_delete_response,
  encode_store_offset, encode_query_offset_request, decode_query_offset_response,
  encode_query_publisher_request, decode_query_publisher_response,
}
use rabbitmq_ai.Client.{StreamClient, check_reference, require_open, writes, sent, send_and_wait}

-- What each operation makes of the code of the response.
unfoldable pub create_result : Bytes → Bool → ℕ → Result (Unit {0})
create_result stream idempotent code =
    if code == ResponseCode.ok
    then ok tt
    else if code == ResponseCode.stream_already_exists
    then if idempotent
      then ok tt
      else err (stream_error Kind.stream_already_exists (text "stream already exists: " ++ stream))
    else err (stream_error_code Kind.server_error (text "create_stream failed") code)

unfoldable pub delete_result : Bytes → Bool → ℕ → Result (Unit {0})
delete_result stream idempotent code =
    if code == ResponseCode.ok
    then ok tt
    else if code == ResponseCode.stream_does_not_exist
    then if idempotent
      then ok tt
      else err (stream_error Kind.stream_does_not_exist (text "stream does not exist: " ++ stream))
    else err (stream_error_code Kind.server_error (text "delete_stream failed") code)

unfoldable pub query_offset_result : Bytes → ℕ → ℕ → Result (Option ℕ)
query_offset_result stream code offset =
    if code == ResponseCode.ok
    then ok (some offset)
    else if code == ResponseCode.no_offset
    then ok none
    else if code == ResponseCode.stream_does_not_exist
    then err (stream_error Kind.stream_does_not_exist (text "stream does not exist: " ++ stream))
    else err (stream_error_code Kind.server_error (text "query_offset failed") code)

unfoldable pub query_publisher_result : Bytes → ℕ → ℕ → Result ℕ
query_publisher_result stream code sequence =
    if code == ResponseCode.ok
    then ok sequence
    else if code == ResponseCode.stream_does_not_exist
    then err (stream_error Kind.stream_does_not_exist (text "stream does not exist: " ++ stream))
    else err (stream_error_code Kind.server_error (text "query_publisher_sequence failed") code)

module _ {W : Type 0} (t : Transport W) (now sent_at : ℕ) (during : List Operation) where
  unfoldable pub create_stream : Bytes → List KeyValue → Bool → Io (StreamClient W) (Unit {0})
  create_stream stream args idempotent = do
    require_open t
    resp_r ←
        send_and_wait t now sent_at during Key.create 1
          (encode_create_request (record { stream = stream; arguments = args }) new_writer).data_
    resp ← from (decode_create_response (new_reader resp_r.body)).0
    from (create_result stream idempotent resp.response_code)

  unfoldable pub delete_stream : Bytes → Bool → Io (StreamClient W) (Unit {0})
  delete_stream stream idempotent = do
    require_open t
    resp_r ←
        send_and_wait t now sent_at during Key.delete 1
          (encode_delete_request (record { stream = stream }) new_writer).data_
    resp ← from (decode_delete_response (new_reader resp_r.body)).0
    from (delete_result stream idempotent resp.response_code)

  unfoldable pub query_offset : Bytes → Bytes → Io (StreamClient W) (Option ℕ)
  query_offset reference stream = do
    require_open t
    resp_r ←
        send_and_wait t now sent_at during Key.query_offset 1
          (encode_query_offset_request (record { reference = reference; stream = stream })
            new_writer).data_
    resp ← from (decode_query_offset_response (new_reader resp_r.body)).0
    from (query_offset_result stream resp.response_code resp.offset)

  unfoldable pub query_publisher_sequence : Bytes → Bytes → Io (StreamClient W) ℕ
  query_publisher_sequence reference stream = do
    require_open t
    from (check_reference reference)
    resp_r ←
        send_and_wait t now sent_at during Key.query_publisher_sequence 1
          (encode_query_publisher_request
            (record { publisher_reference = reference; stream = stream }) new_writer).data_
    resp ← from (decode_query_publisher_response (new_reader resp_r.body)).0
    from (query_publisher_result stream resp.response_code resp.sequence)

-- One-way: it ends once the frame is written.
unfoldable pub store_offset :
    {W : Type 0} → Transport W → ℕ → Bytes → Bytes → ℕ → Io (StreamClient W) (Unit {0})
store_offset t sent_at reference stream offset = do
  require_open t
  from (check_reference reference)
  sent t sent_at
  writes t (
      encode_oneway_frame Key.store_offset 1
        (encode_store_offset (record { reference = reference; stream = stream; offset = offset })
          new_writer).data_)

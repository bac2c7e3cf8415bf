-- ===== src/Examples/Clients.antt =====
-- The client at concrete inputs.
use rabbitmq_ai.Common.{
  Option, ℕ, zero, suc, ◌≡◌, refl, true, false, some, none, List, [], ◌∷◌, ◌++◌, Bytes, text, arith,
}
use rabbitmq_ai.Result.{Result, ok, err}
use rabbitmq_ai.Errors.{Kind, stream_error}
use rabbitmq_ai.Buffer.{new_writer}
use rabbitmq_ai.Frame.{IncomingFrame, encode_request_frame, check_outbound_frame_size}
use rabbitmq_ai.Frame.Key
use rabbitmq_ai.Frame.Key.{is_response, response_of}
use rabbitmq_ai.Config.{default_config}
use rabbitmq_ai.Dispatcher.{new_dispatcher, register_pending, find}
use rabbitmq_ai.Dispatcher.Steps.{Operation, registers, reaps, dispatches, run}
use rabbitmq_ai.Dispatcher.Conservation.{new_dispatcher-IsConserved}
use rabbitmq_ai.Commands.Lifecycle.{
  encode_create_request, create_response_command, encode_delete_request, delete_response_command,
  encode_query_offset_request, query_offset_response_command, encode_query_publisher_request,
  query_publisher_response_command,
}
use rabbitmq_ai.Handshake.Script.{Script, scripted, answer}
use rabbitmq_ai.Client.{ConnectionState, Thread, StreamClient, not_open, send_and_wait}
use rabbitmq_ai.Client.Lifecycle.{
  create_stream, delete_stream, query_offset, query_publisher_sequence, store_offset,
}
use rabbitmq_ai.Client.Requests.{IsReady, client_after}
use rabbitmq_ai.Client.Interleaved.{send_and_wait_interleaved}
use rabbitmq_ai.Client.Answers.{IsOffsetAnswer, query_offset_answered}
use rabbitmq_ai.Client.Guards.{operations-not_open}
use rabbitmq_ai.Client.Loop.{io_loop}
use rabbitmq_ai.Client.Notified.{IsQuiet, io_loop-IsQuiet}

abbrev nothing : Script
nothing = record { inbox = []; outbox = [] }

abbrev client_in : ConnectionState → StreamClient Script
client_in s = record {
  cfg_ = default_config;
  state_ = s;
  closing_ = false;
  dispatcher_ = new_dispatcher;
  next_app_cid_ = 100;
  negotiated_frame_max_ = 0;
  negotiated_heartbeat_ = 0;
  last_inbound_at_ = 0;
  last_outbound_at_ = 0;
  on_unexpected_close_ = some 1;
  unexpected_fired_ = false;
  notified = [];
  server_props_ = [];
  conn_props_ = [];
  sock_ = record { fd_ = some 3 };
  stop_io_ = false;
  io_thread_ = Thread.running;
  heartbeat_thread_ = Thread.not_joinable;
  world_ = nothing;
}

abbrev client : StreamClient Script
client = client_in ConnectionState.opened

-- The world after the request is written.
abbrev written : ℕ → Bytes → Script
written key body = record nothing { outbox = encode_request_frame key 1 100 body ∷ [] }

client-IsReady : (key : ℕ) (body : Bytes) → IsReady scripted client (written key body) key 1 body
unfolding check_outbound_frame_size find new_dispatcher
client-IsReady key body = record {
  reachable = new_dispatcher-IsConserved;
  fresh = refl;
  fits = refl;
  written = refl;
}

abbrev created : IncomingFrame
created = answer create_response_command (record { response_code = 1 }) (some 100)

abbrev create_body : Bytes
create_body =
    (encode_create_request (record { stream = text "s"; arguments = [] }) new_writer).data_

abbrev missing : IncomingFrame
missing = answer delete_response_command (record { response_code = 2 }) (some 100)

abbrev delete_body : Bytes
delete_body = (encode_delete_request (record { stream = text "s" }) new_writer).data_

abbrev no_offset : IncomingFrame
no_offset =
    answer query_offset_response_command (record { response_code = 0x13; offset = 0 }) (some 100)

abbrev query_body : Bytes
query_body =
    (encode_query_offset_request (record { reference = text "r"; stream = text "s" })
      new_writer).data_

query_offset_answered_example :
    (r : Result (Option ℕ)) × (query_offset scripted 5 6
        (dispatches no_offset ∷ [])
        (text "r")
        (text "s")
        client
      ≡ some (r, client_after client 6 (written Key.query_offset query_body) no_offset))
    × IsOffsetAnswer (text "s") 0x13 0 r
query_offset_answered_example =
    query_offset_answered scripted client (written Key.query_offset query_body) 5 6 refl (text "r")
      (text "s") 0x13 0 (omega arith) (omega arith) (client-IsReady Key.query_offset query_body)

abbrev sequence_9 : IncomingFrame
sequence_9 =
    answer query_publisher_response_command (record { response_code = 1; sequence = 9 }) (some 100)

abbrev publisher_body : Bytes
publisher_body =
    (encode_query_publisher_request (record { publisher_reference = text "r"; stream = text "s" })
      new_writer).data_

operations-not_open_example :
    let c = client_in ConnectionState.closed in
    (create_stream scripted 5 6 [] (text "s") [] true c ≡ some (err not_open, c))
    × (delete_stream scripted 5 6 [] (text "s") true c ≡ some (err not_open, c))
    × (query_offset scripted 5 6 [] (text "r") (text "s") c ≡ some (err not_open, c))
    × (query_publisher_sequence scripted 5 6 [] (text "r") (text "s") c ≡ some (err not_open, c))
    × (store_offset scripted 6 (text "r") (text "s") 9 c ≡ some (err not_open, c))
operations-not_open_example =
    operations-not_open scripted 5 6 [] (client_in ConnectionState.closed) (text "s") (text "r") []
      true 9 refl

abbrev repeated : ℕ → Bytes
repeated zero = []
repeated (suc n) = 97 ∷ repeated n

-- A timeout, a heartbeat frame, then an error of the socket.
abbrev reads : List (ℕ × Result IncomingFrame)
reads =
    (10, err (stream_error Kind.request_timeout (text "recv timeout")))
    ∷ (20, ok (record { key = 0x17; version = 1; body = []; correlation_id = none }))
    ∷ (30, err (stream_error Kind.io_error (text "recv: reset")))
    ∷ []

abbrev leaving : StreamClient Script
leaving = record client { state_ = ConnectionState.closing; closing_ = true }

io_loop-IsQuiet_example : IsQuiet leaving (io_loop reads leaving)
io_loop-IsQuiet_example = io_loop-IsQuiet reads leaving refl refl refl

-- Another request and a reap come first.
abbrev others : List Operation
others = registers 7 50 ∷ reaps 8 ∷ []

abbrev client_then : StreamClient Script
client_then = record client {
  next_app_cid_ = 101;
  dispatcher_ =
      run (register_pending 100 10005 new_dispatcher).1 (others ++ dispatches created ∷ []);
  last_outbound_at_ = 6;
  world_ = written Key.create [];
}

send_and_wait_interleaved_example :
    send_and_wait scripted 5 6 (others ++ dispatches created ∷ []) Key.create 1 [] client
    ≡ some (ok created, client_then)
unfolding new_dispatcher
send_and_wait_interleaved_example =
    send_and_wait_interleaved scripted client (written Key.create []) 5 6 Key.create 1 [] others
      created (client-IsReady Key.create []) tt (tt, (omega arith, tt))
      (unfold is_response response_of in refl) refl

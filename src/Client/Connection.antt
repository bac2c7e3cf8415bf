-- ===== src/Client/Connection.antt =====
-- src/client.cpp: the constructor, `connect`, the heartbeat thread, `close` and the destructor. `close`
-- and the destructor wait for other threads, so each is several operations; `Steps` has the orders in
-- which these and the threads can take turns.
pub mod Steps
pub mod Skeleton
pub mod Invariant
pub mod Connecting
pub mod Operations
pub mod Rounds
pub mod Reachable
pub mod Order
pub mod Opens
pub mod Tcp
use rabbitmq_ai.Common.{
  ℕ, ◌+◌, ◌-◌, ◌*◌, ◌%◌, ◌^◌, Bool, true, false, Option, none, some, List, [], ltb, leb,
  if◌then◌else◌, Bytes, text,
}
use rabbitmq_ai.Errors.{Kind, StreamError, stream_error}
use rabbitmq_ai.Result.{Result, ok, err}
use rabbitmq_ai.Config.{ConnectionConfig, validate}
use rabbitmq_ai.Transport.{Transport}
use rabbitmq_ai.Dispatcher.{new_dispatcher, register_pending, fail_all_pending}
use rabbitmq_ai.Commands.{KeyValue}
use rabbitmq_ai.Commands.Connection.{
  CloseRequest, close_request_command, heartbeat_frame, heartbeat_command,
}
use rabbitmq_ai.Handshake.{HandshakeResult, request_frame, oneway_frame, run_handshake}
use rabbitmq_ai.Socket.{Socket, close, move_assign}
use rabbitmq_ai.Socket.Connect.{
  ResolvedAddr, Calls, Host, shut_all, on_host, set_recv_timeout, connect_with_timeout,
}
use rabbitmq_ai.Client.{ConnectionState, Thread, StreamClient, is_open, writes}

unfoldable pub new_client : {W : Type 0} → ConnectionConfig → W → StreamClient W
new_client cfg w = record {
  cfg_ = cfg;
  state_ = ConnectionState.disconnected;
  closing_ = false;
  dispatcher_ = new_dispatcher;
  next_app_cid_ = 100;
  negotiated_frame_max_ = 0;
  negotiated_heartbeat_ = 0;
  last_inbound_at_ = 0;
  last_outbound_at_ = 0;
  on_unexpected_close_ = none;
  unexpected_fired_ = false;
  notified = [];
  server_props_ = [];
  conn_props_ = [];
  sock_ = record { fd_ = none };
  stop_io_ = false;
  io_thread_ = Thread.not_joinable;
  heartbeat_thread_ = Thread.not_joinable;
  world_ = w;
}

abbrev pub is_disconnected : ConnectionState → Bool
is_disconnected ConnectionState.disconnected = true
is_disconnected _ = false

abbrev pub already_connecting : StreamError
already_connecting = stream_error Kind.connection_not_open (text "already connecting or open")

abbrev pub closed_not_open : StreamError
closed_not_open = stream_error Kind.connection_not_open (text "not open")

abbrev pub connection_closed : StreamError
connection_closed = stream_error Kind.connection_closed (text "connection closed")

abbrev pub close_request : CloseRequest
close_request = record { closing_code = 0x01; closing_reason = text "client requested close" }

module _ {W : Type 0} where
  -- The result of a write that the code ignores.
  abbrev pub ignore : {A : Type 0} → Option (Result A × StreamClient W) → Option (StreamClient W)
  ignore none = none
  ignore (some (_, c)) = some c

  -- `sock_.close()`
  unfoldable pub close_socket : StreamClient (Host W) → StreamClient (Host W)
  close_socket c = record c {
    sock_ = (close c.sock_).0;
    world_ = shut_all (close c.sock_).1 c.world_;
  }

  -- `sock_ = std::move(s)`
  unfoldable pub assign_socket : Socket → StreamClient (Host W) → StreamClient (Host W)
  assign_socket s c =
      let (a, b, fds) = move_assign c.sock_ s in
      record c { sock_ = a; world_ = shut_all fds c.world_ }

  -- "4. Transition to Open", which other threads see from here on.
  unfoldable pub to_open : StreamClient W → StreamClient W
  to_open c = record c { state_ = ConnectionState.opened; closing_ = false }

  -- From there to the end; `li` and `lo` are the times that it reads.
  unfoldable pub start_threads : ℕ → ℕ → StreamClient W → StreamClient W
  start_threads li lo c = record c {
    last_inbound_at_ = li;
    last_outbound_at_ = lo;
    stop_io_ = false;
    unexpected_fired_ = false;
    io_thread_ = Thread.running;
    heartbeat_thread_ =
        (if ltb 0 c.negotiated_heartbeat_ then Thread.running else c.heartbeat_thread_);
  }

  abbrev pub started :
      ℕ
      → ℕ
      → Option (Result (Unit {0}) × StreamClient W)
      → Option (Result (Unit {0}) × StreamClient W)
  started li lo none = none
  started li lo (some (err e, c)) = some (err e, c)
  started li lo (some (ok u, c)) = some (ok u, start_threads li lo c)

  -- `connect`, up to the change of the state to Connecting.
  unfoldable pub begin_connect : StreamClient W → Result (Unit {0}) × StreamClient W
  begin_connect c = elim (validate c.cfg_) [
    | err e ↦ (err e, c)
    | ok _ ↦
        if is_disconnected c.state_
        then (ok tt, record c { state_ = ConnectionState.connecting })
        else (err already_connecting, c)
  ]

  -- `close`, from the change of the state to the registration of its request.
  unfoldable pub to_closing : ℕ → StreamClient W → StreamClient W
  to_closing now c = record c {
    state_ = ConnectionState.closing;
    closing_ = true;
    next_app_cid_ = (c.next_app_cid_ + 1) % 2 ^ 32;
    dispatcher_ = (register_pending c.next_app_cid_ (now + c.cfg_.request_timeout) c.dispatcher_).1;
  }

  -- `stop_io_.store(true)` and `sock_.close()`, in `close`.
  unfoldable pub stop : StreamClient (Host W) → StreamClient (Host W)
  stop c = close_socket (record c { stop_io_ = true })

  -- `close`, once both threads have ended: from the joins on.
  unfoldable pub end_close : StreamClient W → StreamClient W
  end_close c = record c {
    io_thread_ = Thread.not_joinable;
    heartbeat_thread_ = Thread.not_joinable;
    dispatcher_ = fail_all_pending connection_closed c.dispatcher_;
    state_ = ConnectionState.closed;
  }

  -- The destructor, up to the joins, and from them on.
  unfoldable pub begin_destroy : StreamClient W → StreamClient W
  begin_destroy c = record c {
    closing_ = (if is_open c.state_ then true else c.closing_);
    stop_io_ = true;
  }

  unfoldable pub end_destroy : StreamClient (Host W) → StreamClient (Host W)
  end_destroy c =
      close_socket
        (record c { io_thread_ = Thread.not_joinable; heartbeat_thread_ = Thread.not_joinable })

module _ {W : Type 0} (wire : Socket → Transport W) where
  -- A write to the socket, whose result is ignored.
  unfoldable pub write_ignored : Bytes → StreamClient (Host W) → Option (StreamClient (Host W))
  write_ignored frame c = ignore (writes (on_host (wire c.sock_)) frame c)

  -- `close`, up to the wait for the response; without an open connection that is all of it.
  unfoldable pub begin_close :
      ℕ → StreamClient (Host W) → Option (Result (Unit {0}) × StreamClient (Host W))
  begin_close now c =
      let frame : Bytes = request_frame close_request_command close_request c.next_app_cid_ in
      if is_open c.state_
      then elim (write_ignored frame (to_closing now c)) [
        | none ↦ none
        | some c' ↦ some (ok tt, c')
      ]
      else some (err closed_not_open, c)

  -- A round of the heartbeat thread after its sleep, at the time `now`.
  unfoldable pub heartbeat_round : ℕ → StreamClient (Host W) → Option (StreamClient (Host W))
  heartbeat_round now c =
      if leb (c.negotiated_heartbeat_ * 1000) (now - c.last_outbound_at_)
      then elim (write_ignored (oneway_frame heartbeat_command heartbeat_frame) c) [
        | none ↦ none
        | some c' ↦ some (record c' { last_outbound_at_ = now })
      ]
      else some c

-- `if (hb > 0) sock_.set_recv_timeout(hb * 500)`
unfoldable pub set_timeout :
    {W : Type 0} → Calls W → ℕ → StreamClient (Host W) → StreamClient (Host W)
set_timeout os hb c =
    if ltb 0 hb then record c { world_ = set_recv_timeout os c.sock_ (hb * 500) c.world_ } else c

abbrev pub fails_to_connect : {W : Type 0} → StreamClient W → StreamClient W
fails_to_connect c = record c { state_ = ConnectionState.closed }

-- What `connect` relies on: the system calls, the resolver, and the transport over a socket. `fuel` is
-- for the handshake.
module _ {W : Type 0} (os : Calls W) (resolver : Bytes → ℕ → W → Result (List ResolvedAddr) × W)
    (wire : Socket → Transport W) (fuel : ℕ) where
  -- From the result of the handshake to the open state.
  unfoldable pub after_handshake :
      StreamClient (Host W)
      → Option (Result HandshakeResult × Host W)
      → Option (Result (Unit {0}) × StreamClient (Host W))
  after_handshake c none = none
  after_handshake c (some (err e, h)) =
      some (err e, fails_to_connect (close_socket (record c { world_ = h })))
  after_handshake c (some (ok r, h)) =
      let c' : StreamClient (Host W) = record c {
        world_ = h;
        negotiated_frame_max_ = r.negotiated_frame_max;
        negotiated_heartbeat_ = r.negotiated_heartbeat;
        server_props_ = r.server_properties;
        conn_props_ = r.connection_properties;
      } in
      some (ok tt, to_open (set_timeout os r.negotiated_heartbeat c'))

  -- From the result of connect_with_timeout to the open state.
  unfoldable pub after_tcp :
      StreamClient (Host W)
      → Result Socket × Host W
      → Option (Result (Unit {0}) × StreamClient (Host W))
  after_tcp c (err e, h) = some (err e, fails_to_connect (record c { world_ = h }))
  after_tcp c (ok s, h) =
      let c' =
        set_timeout os c.cfg_.requested_heartbeat_seconds
          (assign_socket s (record c { world_ = h })) in
      after_handshake c' (run_handshake (on_host (wire c'.sock_)) fuel c'.cfg_ c'.world_)

  -- "2. TCP connect" to "4. Transition to Open".
  unfoldable pub establish :
      StreamClient (Host W) → Option (Result (Unit {0}) × StreamClient (Host W))
  establish c =
      after_tcp c
        (connect_with_timeout os c.cfg_.host c.cfg_.port c.cfg_.connect_timeout resolver c.world_)

  -- From the result of the checks on.
  unfoldable pub after_checks :
      ℕ
      → ℕ
      → Result (Unit {0}) × StreamClient (Host W)
      → Option (Result (Unit {0}) × StreamClient (Host W))
  after_checks li lo (err e, c) = some (err e, c)
  after_checks li lo (ok _, c) = started li lo (establish c)

  unfoldable pub connect :
      ℕ → ℕ → StreamClient (Host W) → Option (Result (Unit {0}) × StreamClient (Host W))
  connect li lo c = after_checks li lo (begin_connect c)

unfoldable pub on_unexpected_close : {W : Type 0} → ℕ → StreamClient W → StreamClient W
on_unexpected_close cb c = record c { on_unexpected_close_ = some cb }

unfoldable pub state : {W : Type 0} → StreamClient W → ConnectionState
state c = c.state_

unfoldable pub server_properties : {W : Type 0} → StreamClient W → List KeyValue
server_properties c = c.server_props_

unfoldable pub connection_properties : {W : Type 0} → StreamClient W → List KeyValue
connection_properties c = c.conn_props_

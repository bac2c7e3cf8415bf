-- ===== src/Client.antt =====
-- src/client.cpp, include/stream/client.hpp, include/stream/close_reason.hpp: the state of a client,
-- requests and their answers. `Client.Connection` has `connect`, `close` and the
-- destructor, `Client.Lifecycle` the stream operations, `Client.Loop` the rounds of the reader thread.
pub mod Lifecycle
pub mod Loop
pub mod Requests
pub mod Answers
pub mod Guards
pub mod Notified
pub mod Reader
pub mod Interleaved
pub mod Connection
use rabbitmq_ai.Common.{
  ℕ, ◌+◌, ◌-◌, ◌%◌, ◌^◌, Bool, true, false, ◌||◌, Option, none, some, List, [], ◌∷◌, ltb, ◌==◌,
  if◌then◌else◌, Bytes, text, length,
}
use rabbitmq_ai.Errors.{Kind, StreamError, stream_error}
use rabbitmq_ai.Result.{Result, ok, err}
use rabbitmq_ai.Frame.{IncomingFrame, encode_request_frame, check_outbound_frame_size}
use rabbitmq_ai.Commands.{KeyValue}
use rabbitmq_ai.Config.{ConnectionConfig}
use rabbitmq_ai.Transport.{Transport, Io, from, ◌>>=◌, ◌>>◌}
use rabbitmq_ai.Socket.{Socket}
use rabbitmq_ai.Dispatcher.{Dispatcher, register_pending, timed_out}
use rabbitmq_ai.Dispatcher.Steps.{Operation, run}

pub data ConnectionState : Type 0 where
  disconnected connecting opened closing closed : ConnectionState

pub data CloseReason : Type 0 where
  peer_closed_socket heartbeat_timeout protocol_violation io_error : CloseReason

pub record UnexpectedClose : Type 0 where
  pub reason : CloseReason
  pub message : Bytes
  pub during_handshake : Bool

-- A `std::thread`: joinable unless it was never started or was joined; `ended` waits for its `join`.
pub data Thread : Type 0 where
  not_joinable running ended : Thread

-- `world_` is what the socket is connected to, `notified` logs the calls of the unexpected-close
-- callback. Times are in milliseconds.
pub record StreamClient (W : Type 0) : Type 0 where
  pub cfg_ : ConnectionConfig
  pub state_ : ConnectionState
  pub closing_ : Bool
  pub dispatcher_ : Dispatcher
  pub next_app_cid_ : ℕ
  pub negotiated_frame_max_ : ℕ
  pub negotiated_heartbeat_ : ℕ
  pub last_inbound_at_ : ℕ
  pub last_outbound_at_ : ℕ
  pub on_unexpected_close_ : Option ℕ
  pub unexpected_fired_ : Bool
  pub notified : List (ℕ × UnexpectedClose)
  pub server_props_ : List KeyValue
  pub conn_props_ : List KeyValue
  pub sock_ : Socket
  pub stop_io_ : Bool
  pub io_thread_ : Thread
  pub heartbeat_thread_ : Thread
  pub world_ : W

abbrev pub is_open : ConnectionState → Bool
is_open ConnectionState.opened = true
is_open _ = false

abbrev pub not_open : StreamError
not_open = stream_error Kind.connection_not_open (text "connection is not open")

abbrev pub too_long : StreamError
too_long = stream_error Kind.reference_too_long (text "reference exceeds 256 characters")

unfoldable pub check_reference : Bytes → Result (Unit {0})
check_reference ref = if ltb 256 (length ref) then err too_long else ok tt

-- The value of a promise, if it has one.
unfoldable pub value_of : ℕ → List (ℕ × Result IncomingFrame) → Option (Result IncomingFrame)
value_of p [] = none
value_of p ((k, v) ∷ fs) = if k == p then some v else value_of p fs

unfoldable pub is_in : ℕ → List ℕ → Bool
is_in p [] = false
is_in p (x ∷ xs) = x == p || is_in p xs

-- A program over the world, run by a client.
unfoldable pub on_world : {W A : Type 0} → Io W A → Io (StreamClient W) A
on_world m c = elim (m c.world_) [ none ↦ none | some (x, w) ↦ some (x, record c { world_ = w }) ]

module _ {W : Type 0} (t : Transport W) where
  unfoldable pub require_open : Io (StreamClient W) (Unit {0})
  require_open c = some ((if is_open c.state_ then ok tt else err not_open), c)

  -- `writer_->write_all(frame)`
  unfoldable pub writes : Bytes → Io (StreamClient W) (Unit {0})
  writes frame = on_world (t.write_all frame)

  -- `last_outbound_at_ = now`
  unfoldable pub sent : ℕ → Io (StreamClient W) (Unit {0})
  sent at c = some (ok tt, record c { last_outbound_at_ = at })

  -- The wait on the future of `p`, while the other threads make the operations `during` on the
  -- dispatcher. The `get` of a promise that was destroyed throws.
  unfoldable pub waits : List Operation → ℕ → Io (StreamClient W) IncomingFrame
  waits during p c =
      let d = run c.dispatcher_ during in
      elim (value_of p d.fulfilled) [
        | some v ↦ some (v, record c { dispatcher_ = d })
        | none ↦
            if is_in p d.broken then none else some (err timed_out, record c { dispatcher_ = d })
      ]

  -- From `check_outbound_frame_size` on.
  unfoldable pub transmit : ℕ → List Operation → Bytes → ℕ → ℕ → Io (StreamClient W) IncomingFrame
  transmit sent_at during frame frame_max p = do
    from (check_outbound_frame_size (length frame - 4) frame_max)
    sent sent_at
    writes frame
    waits during p

  -- `now` and `sent_at` are the two times at which it reads the clock.
  unfoldable pub send_and_wait :
      ℕ → ℕ → List Operation → ℕ → ℕ → Bytes → Io (StreamClient W) IncomingFrame
  send_and_wait now sent_at during key version body c =
      let cid = c.next_app_cid_ in
      let (p, d) = register_pending cid (now + c.cfg_.request_timeout) c.dispatcher_ in
      transmit sent_at during (encode_request_frame key version cid body) c.negotiated_frame_max_ p
        (record c { next_app_cid_ = (cid + 1) % 2 ^ 32; dispatcher_ = d })

-- ===== src/Client/Loop.antt =====
-- src/client.cpp, io_loop and notify_unexpected_close: the reader thread.
use rabbitmq_ai.Common.{
  ℕ, ◌*◌, ◌-◌, Bool, true, false, ◌&&◌, none, some, List, [], ◌∷◌, ◌++◌, ltb, if◌then◌else◌, text,
}
use rabbitmq_ai.Errors.{Kind, StreamError, stream_error}
use rabbitmq_ai.Result.{Result, ok, err}
use rabbitmq_ai.Frame.{IncomingFrame}
use rabbitmq_ai.Dispatcher.{dispatch, fail_all_pending, reap_expired}
use rabbitmq_ai.Client.{ConnectionState, CloseReason, UnexpectedClose, StreamClient}

abbrev pub is_timeout : Kind → Bool
is_timeout Kind.request_timeout = true
is_timeout _ = false

abbrev pub is_peer_close : Kind → Bool
is_peer_close Kind.connection_closed = true
is_peer_close _ = false

-- `if (state_ != Closed && state_ != Closing) state_ = Closed;`
abbrev pub closed_by_loop : ConnectionState → ConnectionState
closed_by_loop ConnectionState.closing = ConnectionState.closing
closed_by_loop _ = ConnectionState.closed

abbrev pub heartbeat_lost : UnexpectedClose
heartbeat_lost = record {
  reason = CloseReason.heartbeat_timeout;
  message = text "no data received for 2" ++ (0xC3 ∷ 0x97 ∷ text "heartbeat");
  during_handshake = false;
}

abbrev pub heartbeat_error : StreamError
heartbeat_error = stream_error Kind.connection_closed (text "heartbeat timeout")

-- The close that an error of the socket is.
abbrev pub lost : StreamError → UnexpectedClose
lost e = record {
  reason = (if is_peer_close e.kind then CloseReason.peer_closed_socket else CloseReason.io_error);
  message = e.message;
  during_handshake = false;
}

module _ {W : Type 0} where
  unfoldable pub notify_unexpected_close : UnexpectedClose → StreamClient W → StreamClient W
  notify_unexpected_close evt c = if c.unexpected_fired_ then c else elim c.on_unexpected_close_ [
    | none ↦ record c { unexpected_fired_ = true }
    | some cb ↦ record c { unexpected_fired_ = true; notified = c.notified ++ (cb, evt) ∷ [] }
  ]

  -- After the loop.
  unfoldable pub leave : StreamClient W → StreamClient W
  leave c = record c { state_ = closed_by_loop c.state_ }

  -- `negotiated_heartbeat_ > 0 && (now - li) > dead_interval`, in milliseconds.
  unfoldable pub is_dead : ℕ → StreamClient W → Bool
  is_dead now c =
      ltb 0 c.negotiated_heartbeat_
      && ltb (c.negotiated_heartbeat_ * 2 * 1000) (now - c.last_inbound_at_)

  -- One round of the loop on what `read_frame` gave at the time `now`: whether the loop goes on, and
  -- the client after it. Where a round reads the clock twice, `now` stands for both.
  unfoldable pub io_round : ℕ → Result IncomingFrame → StreamClient W → Bool × StreamClient W
  io_round now (err e) c =
      if is_timeout e.kind
      then if is_dead now c
        then (
          false,
          leave (
              notify_unexpected_close heartbeat_lost
                (record c { dispatcher_ = fail_all_pending heartbeat_error c.dispatcher_ })),
        )
        else (true, record c { dispatcher_ = (reap_expired now c.dispatcher_).1 })
      else let c' : StreamClient W = record c { dispatcher_ = fail_all_pending e c.dispatcher_ } in
        (false, leave (if c.closing_ then c' else notify_unexpected_close (lost e) c'))
  io_round now (ok frame) c = (
    true,
    record c {
      last_inbound_at_ = now;
      dispatcher_ = (dispatch frame (reap_expired now c.dispatcher_).1).1;
    },
  )

  -- The loop on the reads that are made, each with its time. It ends at the first round that says so,
  -- or with the reads: then `stop_io_` is set, and the loop is left too.
  unfoldable pub io_loop : List (ℕ × Result IncomingFrame) → StreamClient W → StreamClient W
  io_loop [] c = leave c
  io_loop ((now, r) ∷ rs) c =
      let next = io_round now r c in let rest = io_loop rs next.1 in if next.0 then rest else next.1

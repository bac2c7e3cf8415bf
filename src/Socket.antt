-- ===== src/Socket.antt =====
-- src/socket.cpp, include/stream/socket.hpp: the owned descriptor, and the loops over `send` and
-- `recv`. The system calls are a parameter, a `Kernel` on a world. The code tries again on EINTR with
-- no bound: `interrupts` is how often it may, in one call of a loop; a round that moves bytes needs
-- none of it. `Socket.Connect` has the connection to an address.
pub mod Stream
pub mod Safety
pub mod Progress
pub mod Frames
pub mod Refines
pub mod Completes
pub mod Connect
use rabbitmq_ai.Common.{
  ℕ, zero, suc, ◌+◌, ◌-◌, ◌%◌, ◌^◌, Bool, true, false, ◌&&◌, Option, none, some, List, [], ◌∷◌,
  ◌++◌, ltb, ◌==◌, if◌then◌else◌, Bytes, text, length, drop, get_or, bit_or,
}
use rabbitmq_ai.Common.Bits.{shl}
use rabbitmq_ai.Errors.{Kind, StreamError, stream_error}
use rabbitmq_ai.Result.{Result, ok, err}
use rabbitmq_ai.Buffer.{new_reader}
use rabbitmq_ai.Frame.{IncomingFrame, read_frame_auto}
use rabbitmq_ai.Transport.{Transport, Io, from, ◌>>=◌, ◌>>◌, stops_if}

-- The values of `errno` that the code tells apart.
pub data Errno : Type 0 where
  eintr eagain : Errno
  other_errno : ℕ → Errno

-- What `send` returns: a count, or -1 with `errno`.
pub data Sent : Type 0 where
  sent : ℕ → Sent
  not_sent : Errno → Sent

-- What `recv` returns: the bytes it stores, none of them at the end of the stream, or -1 with `errno`.
pub data Received : Type 0 where
  received : Bytes → Received
  not_received : Errno → Received

-- The system calls on one connected socket.
pub record Kernel (W : Type 0) : Type 0 where
  pub send : Bytes → W → Sent × W
  pub recv : ℕ → W → Received × W
  pub strerror : Errno → Bytes

pub data TimeoutMode : Type 0 where
  return_timeout treat_as_error : TimeoutMode

abbrev pub is_return : TimeoutMode → Bool
is_return return_timeout = true
is_return treat_as_error = false

abbrev pub recv_timeout : StreamError
recv_timeout = stream_error Kind.request_timeout (text "recv timeout")

abbrev pub peer_closed : StreamError
peer_closed = stream_error Kind.connection_closed (text "peer closed connection")

abbrev pub closed_during_send : StreamError
closed_during_send = stream_error Kind.connection_closed (text "connection closed during send")

-- The 32-bit size in front of a frame.
unfoldable pub size_of : Bytes → ℕ
size_of buf =
    bit_or
      (bit_or (bit_or (shl (get_or buf 0 0) 24 % 2 ^ 32) (shl (get_or buf 1 0) 16 % 2 ^ 32))
        (shl (get_or buf 2 0) 8 % 2 ^ 32))
      (get_or buf 3 0)

module _ {W : Type 0} (k : Kernel W) where
  abbrev pub send_error : Errno → StreamError
  send_error e = stream_error Kind.io_error (text "send: " ++ k.strerror e)

  abbrev pub recv_error : Errno → StreamError
  recv_error e = stream_error Kind.io_error (text "recv: " ++ k.strerror e)

  -- A timeout before the first byte is the caller's to handle, if it asks for that.
  abbrev pub timeout_error : TimeoutMode → Bytes → StreamError
  timeout_error mode got =
      if is_return mode && length got == 0 then recv_timeout else recv_error eagain

  -- A round of the loop of `write_all` on what `send` returned; `left` are the bytes from `sent` on,
  -- and `again` is the rest of the loop.
  unfoldable pub after_send :
      (Bytes → Io W (Unit {0})) → Bytes → Sent × W → Option (Result (Unit {0}) × W)
  after_send again left (sent zero, w) = some (err closed_during_send, w)
  after_send again left (sent (suc n), w) = again (drop (suc n) left) w
  after_send again left (not_sent eintr, w) = again left w
  after_send again left (not_sent eagain, w) = some (err (send_error eagain), w)
  after_send again left (not_sent (other_errno e), w) = some (err (send_error (other_errno e)), w)

  -- `while (sent < size)`
  unfoldable pub write_loop : ℕ → Bytes → Io W (Unit {0})
  write_loop fuel [] w = some (ok tt, w)
  write_loop zero (x ∷ xs) w = none
  write_loop (suc fuel) (x ∷ xs) w = after_send (write_loop fuel) (x ∷ xs) (k.send (x ∷ xs) w)

  unfoldable pub write_all : ℕ → Bytes → Io W (Unit {0})
  write_all interrupts bytes = write_loop (interrupts + length bytes) bytes

  -- A round of the loop of `read_exact` on what `recv` returned, with `n` bytes still to come and
  -- those in `got` there.
  unfoldable pub after_recv :
      TimeoutMode → (ℕ → Bytes → Io W Bytes) → ℕ → Bytes → Received × W → Option (Result Bytes × W)
  after_recv mode again n got (received [], w) = some (err peer_closed, w)
  after_recv mode again n got (received (x ∷ xs), w) = again (n - length (x ∷ xs)) (got ++ x ∷ xs) w
  after_recv mode again n got (not_received eintr, w) = again n got w
  after_recv mode again n got (not_received eagain, w) = some (err (timeout_error mode got), w)
  after_recv mode again n got (not_received (other_errno e), w) =
      some (err (recv_error (other_errno e)), w)

  -- `while (received < n)`; the value is what `dst` holds at the end.
  unfoldable pub read_loop : TimeoutMode → ℕ → ℕ → Bytes → Io W Bytes
  read_loop mode fuel zero got w = some (ok got, w)
  read_loop mode zero (suc n) got w = none
  read_loop mode (suc fuel) (suc n) got w =
      after_recv mode (read_loop mode fuel) (suc n) got (k.recv (suc n) w)

  unfoldable pub read_exact : ℕ → ℕ → TimeoutMode → Io W Bytes
  read_exact interrupts n mode = read_loop mode (interrupts + n) n []

  unfoldable pub read_frame : ℕ → Io W IncomingFrame
  read_frame interrupts = do
    size_buf ← read_exact interrupts 4 return_timeout
    stops_if (ltb (size_of size_buf) 4)
        (stream_error Kind.protocol_violation (text "frame Size < 4"))
    body ← read_exact interrupts (size_of size_buf) treat_as_error
    from (read_frame_auto (new_reader (size_buf ++ body))).0

  -- SocketWriter and SocketReader over one socket, as the handshake and the client use them.
  abbrev pub tcp : ℕ → Transport W
  tcp interrupts = record { write_all = write_all interrupts; read_frame = read_frame interrupts }

-- The class `Socket`. `closed_fds` logs the calls of `::close`.
pub record Socket : Type 0 where
  pub fd_ : Option ℕ

abbrev pub closes : Option ℕ → List ℕ
closes none = []
closes (some fd) = fd ∷ []

-- The destructor does the same.
unfoldable pub close : Socket → Socket × List ℕ
close s = (record { fd_ = none }, closes s.fd_)

unfoldable pub release : Socket → Option ℕ × Socket
release s = (s.fd_, record { fd_ = none })

-- `a = std::move(b)` for two sockets: both of them afterwards, and what was closed.
unfoldable pub move_assign : Socket → Socket → Socket × Socket × List ℕ
unfolding close release
move_assign a b = (record { fd_ = (release b).0 }, (release b).1, (close a).1)

-- ===== src/Client/Connection/Steps.antt =====
-- The life of a client: what its threads do, in every order. The reader and the heartbeat thread make
-- rounds while they run, and end when a round or `stop_io_` says so; `close` and the destructor go on
-- after the joins once both have ended.
use rabbitmq_ai.Common.{ℕ, ◌≡◌, ◌≢◌, Bool, true, false, some, List, [], Bytes, if◌then◌else◌}
use rabbitmq_ai.Result.{Result, is_ok}
use rabbitmq_ai.Config.{ConnectionConfig}
use rabbitmq_ai.Frame.{IncomingFrame}
use rabbitmq_ai.Transport.{Transport}
use rabbitmq_ai.Dispatcher.Steps.{Operation}
use rabbitmq_ai.Socket.{Socket}
use rabbitmq_ai.Socket.Connect.{ResolvedAddr, Calls, Host, on_host}
use rabbitmq_ai.Client.{ConnectionState, Thread, StreamClient, send_and_wait}
use rabbitmq_ai.Client.Lifecycle.{store_offset}
use rabbitmq_ai.Client.Loop.{leave, io_round}
use rabbitmq_ai.Client.Connection.{
  new_client, stop, end_close, begin_destroy, end_destroy, begin_close, heartbeat_round,
  begin_connect, establish, start_threads, on_unexpected_close,
}

-- Neither thread runs: both joins return.
pub record IsJoined {W : Type 0} (c : StreamClient W) : Type 0 where
  pub io_thread : c.io_thread_ ≢ Thread.running
  pub heartbeat_thread : c.heartbeat_thread_ ≢ Thread.running

abbrev pub io_ended : {W : Type 0} → StreamClient W → StreamClient W
io_ended c = record c { io_thread_ = Thread.ended }

-- The reader thread after a round: it goes on, or ends.
abbrev pub turned : {W : Type 0} → Bool × StreamClient W → StreamClient W
turned q = if q.0 then q.1 else io_ended q.1

-- A client, and whether a call of `connect` has published the open state and is about to start the
-- threads.
pub record Life (W : Type 0) : Type 0 where
  pub client : StreamClient (Host W)
  pub is_starting : Bool

module _ {W : Type 0} (os : Calls W) (resolver : Bytes → ℕ → W → Result (List ResolvedAddr) × W)
    (wire : Socket → Transport W) (fuel : ℕ) where
  -- What a thread does that is not in the middle of `connect` or the destructor. That `close` has told
  -- the threads to stop is not asked for where it ends: `connect` may have taken that back.
  pub data Action (c : StreamClient (Host W)) : StreamClient (Host W) → Type 0 where
    connect_begins :
        (r : Result (Unit {0})) (c' : StreamClient (Host W))
        → begin_connect c ≡ (r, c')
        → Action c c'
    requests :
        (now sent_at : ℕ) (during : List Operation) (key version : ℕ) (body : Bytes)
        (r : Result IncomingFrame) (c' : StreamClient (Host W))
        → send_and_wait (on_host (wire c.sock_)) now sent_at during key version body c
          ≡ some (r, c')
        → Action c c'
    stores :
        (sent_at : ℕ) (reference stream : Bytes) (offset : ℕ) (r : Result (Unit {0}))
        (c' : StreamClient (Host W))
        → store_offset (on_host (wire c.sock_)) sent_at reference stream offset c ≡ some (r, c')
        → Action c c'
    listens : (cb : ℕ) → Action c (on_unexpected_close cb c)
    reads :
        (now : ℕ) (r : Result IncomingFrame)
        → c.io_thread_ ≡ Thread.running
        → Action c (turned (io_round now r c))
    reader_stops : c.io_thread_ ≡ Thread.running → c.stop_io_ ≡ true → Action c (io_ended (leave c))
    beats :
        (now : ℕ) (c' : StreamClient (Host W))
        → c.heartbeat_thread_ ≡ Thread.running
        → heartbeat_round wire now c ≡ some c'
        → Action c c'
    heartbeat_stops :
        c.heartbeat_thread_ ≡ Thread.running
        → c.stop_io_ ≡ true
        → Action c (record c { heartbeat_thread_ = Thread.ended })
    close_begins :
        (now : ℕ) (r : Result (Unit {0})) (c' : StreamClient (Host W))
        → begin_close wire now c ≡ some (r, c')
        → Action c c'
    close_stops : c.state_ ≡ ConnectionState.closing → Action c (stop c)
    close_ends : c.state_ ≡ ConnectionState.closing → IsJoined c → Action c (end_close c)

  -- `connect` goes on while the client is connecting, and then once more to start the threads. In
  -- between the client is open without a reader, and any other thread may act, `close` included. The
  -- client is not destroyed in between.
  pub data Step (l : Life W) : Life W → Type 0 where
    acts : (c' : StreamClient (Host W)) → Action l.client c' → Step l (record l { client = c' })
    establishes :
        (r : Result (Unit {0})) (c' : StreamClient (Host W))
        → l.client.state_ ≡ ConnectionState.connecting
        → establish os resolver wire fuel l.client ≡ some (r, c')
        → Step l (record { client = c'; is_starting = is_ok r })
    starts_threads :
        (li lo : ℕ)
        → l.is_starting ≡ true
        → Step l (record { client = start_threads li lo l.client; is_starting = false })
    destroy_begins : l.is_starting ≡ false → Step l (record l { client = begin_destroy l.client })
    destroy_ends :
        l.is_starting ≡ false
        → IsJoined l.client
        → Step l (record l { client = end_destroy l.client })

  pub data Steps (l : Life W) : Life W → Type 0 where
    done : Steps l l
    more : {l' l'' : Life W} → Steps l l' → Step l' l'' → Steps l l''

  -- The states that a client can be in, from its construction on.
  pub data Reach (cfg : ConnectionConfig) (w : W) : Life W → Type 0 where
    starts :
        Reach cfg w
          (record { client = new_client cfg (record { world = w; log = [] }); is_starting = false })
    next : {l l' : Life W} → Reach cfg w l → Step l l' → Reach cfg w l'

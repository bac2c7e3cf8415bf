-- ===== src/Examples/Connections.antt =====
-- The life of a client at concrete inputs: a system whose first address refuses, and a scripted broker.
use rabbitmq_ai.Common.{
  ℕ, ◌≡◌, ◌≢◌, ◌≤◌, ◌⊎◌, refl, true, false, some, List, [], ◌∷◌, ◌++◌, Bytes, text, length, arith,
  if◌then◌else◌, ◌==◌,
}
use rabbitmq_ai.Result.{Result, ok, err}
use rabbitmq_ai.Config.{default_config, validate}
use rabbitmq_ai.Transport.{Transport}
use rabbitmq_ai.Socket.{Socket, close, release, move_assign}
use rabbitmq_ai.Socket.Connect.{
  opens, closes, after_resolver, try_addresses, after_socket, after_get_flags, after_set_flags,
  after_connect, ResolvedAddr, Connected, at_once, refused, writable, Calls, Host,
  connect_with_timeout,
}
use rabbitmq_ai.Socket.Connect.Descriptors.{in_turn, Tidy, connect_with_timeout-Tidy}
use rabbitmq_ai.Handshake.Script.{Script, scripted}
use rabbitmq_ai.Handshake.Completes.{answers, requests, settled, run_handshake_completes}
use rabbitmq_ai.Client.Connection.Opens.{IsOpened, establish_opens}
use rabbitmq_ai.Client.Connection.Invariant.{held, no_socket}
use rabbitmq_ai.Client.Connection.Reachable.{notified-once, no_descriptor_leaks, open_is_live}
use rabbitmq_ai.Client.Connection.Order.{Legal, Step-Legal, closed_is_final}
use rabbitmq_ai.Client.{ConnectionState, Thread, StreamClient}
use rabbitmq_ai.Client.Connection.{
  new_client, already_connecting, begin_connect, establish, start_threads, connect, set_timeout,
  assign_socket,
}
use rabbitmq_ai.Client.Connection.Steps.{
  connect_begins, Life, acts, establishes, starts_threads, done, more, Reach, starts, next,
}
use rabbitmq_ai.Socket.{tcp}
use rabbitmq_ai.Client.Connection.Tcp.{tcp_connect_opens}
use rabbitmq_ai.Examples.Links.{Link, kernel, stream, healthy}
use rabbitmq_ai.Examples.Sockets.{broker_link, broker-IsSendable}
use rabbitmq_ai.Examples.Bootstrap.{broker, broker-IsGood, open_frame_fits}

-- Descriptors are numbered by the family of the address; family 1 is refused.
abbrev connect_fd : ℕ → Connected
connect_fd fd = if fd == 1 then refused else at_once

abbrev calls : {W : Type 0} → Calls W
calls = record {
  socket = λ family socktype protocol w. (some family, w);
  get_flags = λ fd w. (some 0, w);
  set_flags = λ fd flags w. (true, w);
  connect = λ fd addr w. (connect_fd fd, w);
  poll = λ fd timeout w. (writable, w);
  so_error = λ fd w. (some 0, w);
  set_recv_timeout = λ fd s us w. (true, w);
  o_nonblock = 2048;
}

abbrev address : ℕ → ResolvedAddr
address family = record { family = family; socktype = 1; protocol = 6; sockaddr = [] }

abbrev resolver : {W : Type 0} → Bytes → ℕ → W → Result (List ResolvedAddr) × W
resolver host port w = (ok (address 1 ∷ address 2 ∷ []), w)

abbrev wire : Socket → Transport Script
wire s = scripted

abbrev peer : Script
peer = record { inbox = answers broker; outbox = [] }

abbrev fresh : StreamClient (Host Script)
fresh = new_client default_config (record { world = peer; log = [] })

connect_with_timeout-Tidy_example :
    Tidy [] (
      connect_with_timeout calls (text "h") 5552 30000 resolver (record { world = peer; log = [] }))
connect_with_timeout-Tidy_example =
    connect_with_timeout-Tidy calls (text "h") 5552 30000 resolver
      (record { world = peer; log = [] })

abbrev socket : Socket
socket = record { fd_ = some 2 }

abbrev host_then : Host Script
host_then = record { world = peer; log = opens 1 ∷ closes 1 ∷ opens 2 ∷ [] }

tcp_run :
    connect_with_timeout calls
      (text "localhost")
      5552
      30000
      resolver
      (record { world = peer; log = [] })
    ≡ (ok socket, host_then)
unfolding connect_with_timeout after_resolver try_addresses after_socket after_get_flags
    after_set_flags after_connect
tcp_run = refl

abbrev dialling : StreamClient (Host Script)
dialling = record fresh { state_ = ConnectionState.connecting }

begin_run : begin_connect fresh ≡ (ok tt, dialling)
unfolding begin_connect new_client validate text
begin_run = refl

establish_run :
    (c' : StreamClient (Host Script)) × (establish calls resolver wire 5 dialling
      ≡ some (ok tt, c'))
    × IsOpened socket (settled default_config broker) c'
unfolding new_client set_timeout assign_socket move_assign release close
establish_run =
    establish_opens calls resolver wire 5 dialling socket host_then (settled default_config broker)
      (record { inbox = []; outbox = requests default_config broker }) refl tcp_run
      (run_handshake_completes default_config broker 5 broker-IsGood (omega arith) open_frame_fits)

-- The moment at which the client is open, and `connect` has not started its threads.
abbrev published : Life Script
published = record { client = establish_run.0; is_starting = true }

abbrev connected : Life Script
connected = record { client = start_threads 10 20 establish_run.0; is_starting = false }

published-Reach : Reach calls resolver wire 5 default_config peer published
unfolding new_client
published-Reach =
    next (next starts (acts dialling (connect_begins (ok tt) dialling begin_run)))
      (establishes (ok tt) establish_run.0 refl establish_run.1)

connected-Reach : Reach calls resolver wire 5 default_config peer connected
connected-Reach = next published-Reach (starts_threads 10 20 refl)

notified-once_example : length connected.client.notified ≤ 1
notified-once_example =
    notified-once calls resolver wire 5 default_config peer connected connected-Reach

no_descriptor_leaks_example :
    (fds : List ℕ) × (connected.client.world_.log ≡ in_turn fds ++ held connected.client.sock_)
no_descriptor_leaks_example =
    no_descriptor_leaks calls resolver wire 5 default_config peer connected connected-Reach

open_is_live_example :
    ((false ≡ true) ⊎ (connected.client.io_thread_ ≡ Thread.running))
    × (connected.client.sock_ ≢ no_socket)
unfolding start_threads
open_is_live_example =
    open_is_live calls resolver wire 5 default_config peer connected connected-Reach
      establish_run.2.state

Step-Legal_example : Legal published.client connected.client.state_
Step-Legal_example =
    Step-Legal calls resolver wire 5 default_config peer published connected published-Reach
      (starts_threads 10 20 refl)

abbrev closed_client : StreamClient (Host Script)
closed_client = record fresh { state_ = ConnectionState.closed }

abbrev closed_life : Life Script
closed_life = record { client = closed_client; is_starting = false }

-- An attempt to connect again.
refused_run : begin_connect closed_client ≡ (err already_connecting, closed_client)
unfolding begin_connect new_client validate text
refused_run = refl

closed_is_final_example : closed_life.client.state_ ≡ ConnectionState.closed
closed_is_final_example =
    closed_is_final calls resolver wire 5 closed_life closed_life
      (more done
        (acts closed_client (connect_begins (err already_connecting) closed_client refused_run)))
      refl

-- The same client, over TCP.
abbrev dialler : StreamClient (Host Link)
dialler = new_client default_config (record { world = broker_link; log = [] })

abbrev dialled : Host Link
dialled = record { world = broker_link; log = opens 1 ∷ closes 1 ∷ opens 2 ∷ [] }

dialled_run :
    connect_with_timeout calls
      (text "localhost")
      5552
      30000
      resolver
      (record { world = broker_link; log = [] })
    ≡ (ok socket, dialled)
unfolding connect_with_timeout after_resolver try_addresses after_socket after_get_flags
    after_set_flags after_connect
dialled_run = refl

tcp_connect_opens_example :
    (c' : StreamClient (Host Link)) × (connect calls resolver (λ s. tcp kernel 2) 5 10 20 dialler
      ≡ some (ok tt, c'))
    × IsOpened socket (settled default_config broker) c'
    × (c'.io_thread_ ≡ Thread.running)
unfolding new_client validate text
tcp_connect_opens_example =
    tcp_connect_opens calls resolver (λ s. kernel) 2 5 10 20 dialler broker socket dialled stream
      healthy refl refl refl dialled_run
      (record { inbound = λ fd sec usec w. refl; delays = λ fd sec usec w. omega arith })
      broker-IsGood broker-IsSendable (omega arith) open_frame_fits (omega arith) refl

-- ===== src/Socket/Connect.antt =====
-- src/socket.cpp, the resolver and connect_with_timeout. The system calls are a parameter, on a world
-- `W`; a `Host` is such a world with the log of the descriptors that were opened and closed.
pub mod Descriptors
use rabbitmq_ai.Common.{
  ℕ, zero, suc, ◌+◌, ◌-◌, ◌*◌, ◌/◌, ◌%◌, ◌^◌, Bool, true, false, Option, none, some, List, [], ◌∷◌,
  ◌++◌, map, min, Bytes, text, ltb, ◌==◌, if◌then◌else◌, length, bit_or,
}
use rabbitmq_ai.Errors.{Kind, StreamError, stream_error}
use rabbitmq_ai.Result.{Result, ok, err}
use rabbitmq_ai.Transport.{Transport, Io}
use rabbitmq_ai.Socket.{Socket, close, move_assign}

pub record ResolvedAddr : Type 0 where
  pub family : ℕ
  pub socktype : ℕ
  pub protocol : ℕ
  pub sockaddr : Bytes

-- An entry of the list that `getaddrinfo` gives, as far as the code reads it.
pub record Addrinfo : Type 0 where
  pub ai_family : ℕ
  pub ai_socktype : ℕ
  pub ai_protocol : ℕ
  pub ai_addr : Bytes

-- What `getaddrinfo` gives: the text of its error, or the list.
pub data Lookup : Type 0 where
  not_found : Bytes → Lookup
  found : List Addrinfo → Lookup

abbrev pub to_resolved : Addrinfo → ResolvedAddr
to_resolved p = record {
  family = p.ai_family;
  socktype = p.ai_socktype;
  protocol = p.ai_protocol;
  sockaddr = p.ai_addr;
}

unfoldable pub default_resolve_host : Bytes → Lookup → Result (List ResolvedAddr)
default_resolve_host host (not_found e) =
    err (stream_error Kind.connect_failed (text "getaddrinfo: " ++ e))
default_resolve_host host (found []) =
    err (stream_error Kind.connect_failed (text "no addresses resolved for " ++ host))
default_resolve_host host (found (p ∷ ps)) = ok (map to_resolved (p ∷ ps))

-- What `connect` on a non-blocking socket gives.
pub data Connected : Type 0 where
  at_once in_progress refused : Connected

pub data Polled : Type 0 where
  poll_failed poll_timed_out writable : Polled

pub record Calls (W : Type 0) : Type 0 where
  pub socket : ℕ → ℕ → ℕ → W → Option ℕ × W
  pub get_flags : ℕ → W → Option ℕ × W
  pub set_flags : ℕ → ℕ → W → Bool × W
  pub connect : ℕ → Bytes → W → Connected × W
  pub poll : ℕ → ℕ → W → Polled × W
  pub so_error : ℕ → W → Option ℕ × W
  pub set_recv_timeout : Option ℕ → ℕ → ℕ → W → Bool × W
  pub o_nonblock : ℕ

pub data FdCall : Type 0 where
  opens closes : ℕ → FdCall

pub record Host (W : Type 0) : Type 0 where
  pub world : W
  pub log : List FdCall

-- std::to_string, for a port: up to five digits.
unfoldable pub digits : ℕ → ℕ → Bytes
digits zero n = []
digits (suc fuel) n =
    let rest = digits fuel (n / 10) in
    if ltb n 10 then (48 + n) ∷ [] else rest ++ (48 + n % 10) ∷ []

abbrev pub to_string : ℕ → Bytes
to_string = digits 5

module _ {W : Type 0} where
  -- `::close(fd)`
  abbrev pub shut : ℕ → Host W → Host W
  shut fd h = record h { log = h.log ++ closes fd ∷ [] }

  abbrev pub shut_all : List ℕ → Host W → Host W
  shut_all fds h = record h { log = h.log ++ map closes fds }

  -- A transport, on a host.
  unfoldable pub lifted : {A : Type 0} → Io W A → Io (Host W) A
  lifted m h = elim (m h.world) [ none ↦ none | some (x, w) ↦ some (x, record h { world = w }) ]

  abbrev pub on_host : Transport W → Transport (Host W)
  on_host t = record {
    write_all = λ bytes. lifted (t.write_all bytes);
    read_frame = lifted t.read_frame;
  }

abbrev pub Attempt : Type 0 → Type 0
Attempt W = Host W → Result Socket × Host W

module _ {W : Type 0} (os : Calls W) where
  abbrev pub set_recv_timeout : Socket → ℕ → Host W → Host W
  set_recv_timeout s ms h = record h {
    world = (os.set_recv_timeout s.fd_ (ms / 1000) (ms % 1000 * 1000) h.world).1;
  }

  abbrev pub connected : ℕ → ℕ → Attempt W
  connected fd flags h =
      (ok (record { fd_ = some fd }), record h { world = (os.set_flags fd flags h.world).1 })

  -- An address is tried in stages; `again` tries the addresses that follow.
  module _ (host : Bytes) (timeout : ℕ) (again : Attempt W) where
    unfoldable pub after_so_error : ℕ → ℕ → Option ℕ × W → List FdCall → Result Socket × Host W
    after_so_error fd flags (some zero, w) log =
        connected fd flags (record { world = w; log = log })
    after_so_error fd flags (some (suc e), w) log =
        again (shut fd (record { world = w; log = log }))
    after_so_error fd flags (none, w) log = again (shut fd (record { world = w; log = log }))

    unfoldable pub after_poll : ℕ → ℕ → Polled × W → List FdCall → Result Socket × Host W
    after_poll fd flags (poll_failed, w) log = again (shut fd (record { world = w; log = log }))
    after_poll fd flags (poll_timed_out, w) log = (
      err (stream_error Kind.connect_failed (text "connect timed out to " ++ host)),
      shut fd (record { world = w; log = log }),
    )
    after_poll fd flags (writable, w) log = after_so_error fd flags (os.so_error fd w) log

    unfoldable pub after_connect : ℕ → ℕ → Connected × W → List FdCall → Result Socket × Host W
    after_connect fd flags (at_once, w) log = connected fd flags (record { world = w; log = log })
    after_connect fd flags (refused, w) log = again (shut fd (record { world = w; log = log }))
    after_connect fd flags (in_progress, w) log =
        after_poll fd flags (os.poll fd (min timeout (2 ^ 31 - 1)) w) log

    unfoldable pub after_set_flags :
        ResolvedAddr → ℕ → ℕ → Bool × W → List FdCall → Result Socket × Host W
    after_set_flags addr fd flags (false, w) log = again (shut fd (record { world = w; log = log }))
    after_set_flags addr fd flags (true, w) log =
        after_connect fd flags (os.connect fd addr.sockaddr w) log

    unfoldable pub after_get_flags :
        ResolvedAddr → ℕ → Option ℕ × W → List FdCall → Result Socket × Host W
    after_get_flags addr fd (none, w) log = again (shut fd (record { world = w; log = log }))
    after_get_flags addr fd (some flags, w) log =
        after_set_flags addr fd flags (os.set_flags fd (bit_or flags os.o_nonblock) w) log

    unfoldable pub after_socket : ResolvedAddr → Option ℕ × W → List FdCall → Result Socket × Host W
    after_socket addr (none, w) log = again (record { world = w; log = log })
    after_socket addr (some fd, w) log =
        after_get_flags addr fd (os.get_flags fd w) (log ++ opens fd ∷ [])

  unfoldable pub try_addresses : Bytes → ℕ → ℕ → List ResolvedAddr → Attempt W
  try_addresses host port timeout [] h = (
    err (
        stream_error Kind.connect_failed
          (text "could not connect to " ++ host ++ text ":" ++ to_string port)),
    h,
  )
  try_addresses host port timeout (addr ∷ addrs) h =
      after_socket host timeout (try_addresses host port timeout addrs) addr
        (os.socket addr.family addr.socktype addr.protocol h.world) h.log

  unfoldable pub after_resolver :
      Bytes → ℕ → ℕ → Result (List ResolvedAddr) × W → List FdCall → Result Socket × Host W
  after_resolver host port timeout (err e, w) log = (err e, record { world = w; log = log })
  after_resolver host port timeout (ok addrs, w) log =
      try_addresses host port timeout addrs (record { world = w; log = log })

  unfoldable pub connect_with_timeout :
      Bytes → ℕ → ℕ → (Bytes → ℕ → W → Result (List ResolvedAddr) × W) → Attempt W
  connect_with_timeout host port timeout resolver h =
      after_resolver host port timeout (resolver host port h.world) h.log

-- TlsSocket::connect
unfoldable pub tls_connect : Bytes → ℕ → ℕ → Result (Unit {0})
tls_connect host port timeout =
    err
      (stream_error Kind.connect_failed (text "TLS not yet implemented; use plain TCP (port 5552)"))

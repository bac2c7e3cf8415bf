-- ===== src/Client/Connection/Invariant.antt =====
-- What holds of a client in every state that its threads can bring it to.
use rabbitmq_ai.Common.{
  ℕ, ◌≤◌, ◌≡◌, ◌≢◌, ◌⊎◌, Bool, true, false, refl, sym, ap, subst, ◌∙◌, Option, none, some, List, [],
  ◌∷◌, ◌++◌, append-nil, append_assoc, map, length, if◌then◌else◌,
}
use rabbitmq_ai.Errors.{StreamError}
use rabbitmq_ai.Result.{ok, err}
use rabbitmq_ai.Socket.{Socket, close}
use rabbitmq_ai.Socket.Connect.{FdCall, opens, closes, Host}
use rabbitmq_ai.Socket.Connect.Descriptors.{in_turn, Tidy}
use rabbitmq_ai.Client.{ConnectionState, Thread, StreamClient}
use rabbitmq_ai.Client.Connection.Skeleton.{Skeleton, skeleton}

abbrev pub held : Socket → List FdCall
held s = elim s.fd_ [ none ↦ [] | some fd ↦ opens fd ∷ [] ]

-- Every descriptor was closed before the next was opened, but for the one that the socket holds.
abbrev pub IsBalanced : Socket → List FdCall → Type 0
IsBalanced s log = (fds : List ℕ) × (log ≡ in_turn fds ++ held s)

abbrev pub no_socket : Socket
no_socket = record { fd_ = none }

-- The states up to the point where `connect` succeeds or fails.
abbrev pub is_before : ConnectionState → Bool
is_before ConnectionState.disconnected = true
is_before ConnectionState.connecting = true
is_before _ = false

pub record IsFresh (s : Skeleton) : Type 0 where
  pub sock : s.sock ≡ no_socket
  pub io_thread : s.io_thread ≡ Thread.not_joinable
  pub heartbeat_thread : s.heartbeat_thread ≡ Thread.not_joinable
  pub notified : s.notified ≡ []

-- A client whose threads `connect` is about to start.
pub record IsStarting (s : Skeleton) : Type 0 where
  pub state : is_before s.state ≡ false
  pub io_thread : s.io_thread ≡ Thread.not_joinable
  pub heartbeat_thread : s.heartbeat_thread ≡ Thread.not_joinable
  pub notified : s.notified ≡ []

-- The callback is called once at most, before `connect` succeeds nothing is there, no descriptor leaks,
-- and an open client has a socket and, unless `connect` is about to start it, a reader.
pub record IsSound (starting : Bool) (s : Skeleton) : Type 0 where
  pub once : length s.notified ≤ (if s.fired then 1 else 0)
  pub fresh : is_before s.state ≡ true → IsFresh s
  pub starts : starting ≡ true → IsStarting s
  pub balanced : IsBalanced s.sock s.log
  pub live :
      s.state ≡ ConnectionState.opened
      → ((starting ≡ true) ⊎ (s.io_thread ≡ Thread.running)) × (s.sock ≢ no_socket)

in_turn-append : (xs ys : List ℕ) → in_turn (xs ++ ys) ≡ in_turn xs ++ in_turn ys
in_turn-append [] ys = refl
in_turn-append (x ∷ xs) ys = ap (λ t. opens x ∷ closes x ∷ t) (in_turn-append xs ys)

closed_log :
    (fd : Option ℕ) (log : List FdCall)
    → IsBalanced (record { fd_ = fd }) log
    → IsBalanced no_socket (log ++ map closes (close (record { fd_ = fd })).1)
unfolding close
closed_log none log (fds, e) = (fds, append-nil log ∙ e)
closed_log (some fd) log (fds, e) = (
  fds ++ fd ∷ [],
  ap (λ t. t ++ closes fd ∷ []) e
      ∙ append_assoc (in_turn fds) (opens fd ∷ []) (closes fd ∷ [])
      ∙ sym (append-nil _ ∙ in_turn-append fds (fd ∷ [])),
)

-- `::close` of what the socket holds.
pub IsBalanced-close :
    (s : Socket) (log : List FdCall)
    → IsBalanced s log
    → IsBalanced no_socket (log ++ map closes (close s).1)
IsBalanced-close s = closed_log s.fd_

-- What an attempt to connect adds to a log that is balanced without a socket.
Tidy-balanced :
    (fds : List ℕ) (log : List FdCall)
    → log ≡ in_turn fds ++ []
    → (later : List ℕ) (after : List FdCall) (log' : List FdCall)
    → log' ≡ log ++ (in_turn later ++ after)
    → log' ≡ in_turn (fds ++ later) ++ after
Tidy-balanced fds log e later after log' h =
    h
    ∙ ap (λ t. t ++ (in_turn later ++ after)) (e ∙ append-nil (in_turn fds))
    ∙ sym (append_assoc (in_turn fds) (in_turn later) after)
    ∙ ap (λ t. t ++ after) (sym (in_turn-append fds later))

pub Tidy-failed :
    {W : Type 0} (log : List FdCall) (x : StreamError) (h : Host W)
    → IsBalanced no_socket log
    → Tidy log (err x, h)
    → IsBalanced no_socket h.log
Tidy-failed log x h (fds, e) (later, l) = (
  fds ++ later,
  Tidy-balanced fds log e later [] h.log
      (l ∙ ap (λ t. log ++ t) (sym (append-nil (in_turn later)))),
)

pub Tidy-connected :
    {W : Type 0} (log : List FdCall) (s : Socket) (h : Host W)
    → IsBalanced no_socket log
    → Tidy log (ok s, h)
    → (fd : ℕ) × (s ≡ record { fd_ = some fd }) × IsBalanced s h.log
Tidy-connected log s h (fds, e) (later, fd, same, l) = (
  fd,
  same,
  subst (λ a. IsBalanced a h.log) (sym same)
      (fds ++ later, Tidy-balanced fds log e later (opens fd ∷ []) h.log l),
)

abbrev pub SoundClient : {W : Type 0} → Bool → StreamClient (Host W) → Type 0
SoundClient b c = IsSound b (skeleton c)

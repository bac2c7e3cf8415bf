-- ===== src/Socket/Connect/Descriptors.antt =====
-- connect_with_timeout and the descriptors that it opens.
use rabbitmq_ai.Common.{
  ℕ, zero, suc, ◌≡◌, refl, sym, ◌∙◌, Bool, true, false, Option, none, some, List, [], ◌∷◌, ◌++◌,
  append-nil, append_assoc, Bytes,
}
use rabbitmq_ai.Result.{Result, ok, err}
use rabbitmq_ai.Socket.{Socket}
use rabbitmq_ai.Socket.Connect.{
  ResolvedAddr, Connected, at_once, in_progress, refused, Polled, poll_failed, poll_timed_out,
  writable, Calls, FdCall, opens, closes, Host, shut, Attempt, after_so_error, after_poll,
  after_connect, after_set_flags, after_get_flags, after_socket, try_addresses, after_resolver,
  connect_with_timeout,
}

-- Descriptors that are closed before the next is opened.
abbrev pub in_turn : List ℕ → List FdCall
in_turn [] = []
in_turn (fd ∷ fds) = opens fd ∷ closes fd ∷ in_turn fds

after_one :
    (before later : List FdCall) (fd : ℕ)
    → ((before ++ opens fd ∷ []) ++ closes fd ∷ []) ++ later
      ≡ before ++ opens fd ∷ closes fd ∷ later
after_one before later fd =
    append_assoc (before ++ opens fd ∷ []) (closes fd ∷ []) later
    ∙ append_assoc before (opens fd ∷ []) (closes fd ∷ later)

module _ {W : Type 0} where
  -- What an attempt that began with the log `before` leaves: every descriptor that it opened is closed
  -- before the next is opened, but for that of the socket it returns.
  abbrev pub Tidy : List FdCall → Result Socket × Host W → Type 0
  Tidy before (ok s, h) =
      (fds : List ℕ) × (fd : ℕ) × (s ≡ record { fd_ = some fd })
      × (h.log ≡ before ++ (in_turn fds ++ opens fd ∷ []))
  Tidy before (err e, h) = (fds : List ℕ) × (h.log ≡ before ++ in_turn fds)

  -- The attempt goes on after `fd`.
  Tidy-after :
      (before : List FdCall) (fd : ℕ) (q : Result Socket × Host W)
      → Tidy ((before ++ opens fd ∷ []) ++ closes fd ∷ []) q
      → Tidy before q
  Tidy-after before fd (ok s, h) (fds, g, same, l) =
      (fd ∷ fds, g, same, l ∙ after_one before (in_turn fds ++ opens g ∷ []) fd)
  Tidy-after before fd (err x, h) (fds, l) = (fd ∷ fds, l ∙ after_one before (in_turn fds) fd)

module _ {W : Type 0} (os : Calls W) (host : Bytes) (timeout : ℕ) (again : Attempt W)
    (h : (before : List FdCall) (w : W)
      → Tidy before (again (record { world = w; log = before }))) where
  next_address :
      (fd : ℕ) (w : W) (before : List FdCall)
      → Tidy before (again (shut fd (record { world = w; log = before ++ opens fd ∷ [] })))
  next_address fd w before =
      Tidy-after before fd _ (h ((before ++ opens fd ∷ []) ++ closes fd ∷ []) w)

  after_so_error-Tidy :
      (fd flags : ℕ) (q : Option ℕ × W) (before : List FdCall)
      → Tidy before (after_so_error os host timeout again fd flags q (before ++ opens fd ∷ []))
  unfolding after_so_error
  after_so_error-Tidy fd flags (some zero, w) before = ([], fd, refl, refl)
  after_so_error-Tidy fd flags (some (suc e), w) before = next_address fd w before
  after_so_error-Tidy fd flags (none, w) before = next_address fd w before

  after_poll-Tidy :
      (fd flags : ℕ) (q : Polled × W) (before : List FdCall)
      → Tidy before (after_poll os host timeout again fd flags q (before ++ opens fd ∷ []))
  unfolding after_poll
  after_poll-Tidy fd flags (poll_failed, w) before = next_address fd w before
  after_poll-Tidy fd flags (poll_timed_out, w) before =
      (fd ∷ [], append_assoc before (opens fd ∷ []) (closes fd ∷ []))
  after_poll-Tidy fd flags (writable, w) before = after_so_error-Tidy fd flags _ before

  after_connect-Tidy :
      (fd flags : ℕ) (q : Connected × W) (before : List FdCall)
      → Tidy before (after_connect os host timeout again fd flags q (before ++ opens fd ∷ []))
  unfolding after_connect
  after_connect-Tidy fd flags (at_once, w) before = ([], fd, refl, refl)
  after_connect-Tidy fd flags (refused, w) before = next_address fd w before
  after_connect-Tidy fd flags (in_progress, w) before = after_poll-Tidy fd flags _ before

  after_set_flags-Tidy :
      (addr : ResolvedAddr) (fd flags : ℕ) (q : Bool × W) (before : List FdCall)
      → Tidy before
          (after_set_flags os host timeout again addr fd flags q (before ++ opens fd ∷ []))
  unfolding after_set_flags
  after_set_flags-Tidy addr fd flags (false, w) before = next_address fd w before
  after_set_flags-Tidy addr fd flags (true, w) before = after_connect-Tidy fd flags _ before

  after_get_flags-Tidy :
      (addr : ResolvedAddr) (fd : ℕ) (q : Option ℕ × W) (before : List FdCall)
      → Tidy before (after_get_flags os host timeout again addr fd q (before ++ opens fd ∷ []))
  unfolding after_get_flags
  after_get_flags-Tidy addr fd (none, w) before = next_address fd w before
  after_get_flags-Tidy addr fd (some flags, w) before = after_set_flags-Tidy addr fd flags _ before

  after_socket-Tidy :
      (addr : ResolvedAddr) (q : Option ℕ × W) (before : List FdCall)
      → Tidy before (after_socket os host timeout again addr q before)
  unfolding after_socket
  after_socket-Tidy addr (none, w) before = h before w
  after_socket-Tidy addr (some fd, w) before = after_get_flags-Tidy addr fd _ before

module _ {W : Type 0} (os : Calls W) (host : Bytes) (port timeout : ℕ) where
  try_addresses-Tidy :
      (addrs : List ResolvedAddr) (before : List FdCall) (w : W)
      → Tidy before (try_addresses os host port timeout addrs (record { world = w; log = before }))
  unfolding try_addresses
  try_addresses-Tidy [] before w = ([], sym (append-nil before))
  try_addresses-Tidy (addr ∷ addrs) before w =
      after_socket-Tidy os host timeout (try_addresses os host port timeout addrs)
        (try_addresses-Tidy addrs) addr _ before

  after_resolver-Tidy :
      (q : Result (List ResolvedAddr) × W) (before : List FdCall)
      → Tidy before (after_resolver os host port timeout q before)
  unfolding after_resolver
  after_resolver-Tidy (err e, w) before = ([], sym (append-nil before))
  after_resolver-Tidy (ok addrs, w) before = try_addresses-Tidy addrs before w

  -- However the resolver and the system calls answer, connect_with_timeout leaks no descriptor: it
  -- closes each that it opens before it opens the next, and all of them if it fails; the one that it
  -- returns in a socket is the last that it opened, and is not closed.
  pub connect_with_timeout-Tidy :
      (resolver : Bytes → ℕ → W → Result (List ResolvedAddr) × W) (h : Host W)
      → Tidy h.log (connect_with_timeout os host port timeout resolver h)
  unfolding connect_with_timeout
  connect_with_timeout-Tidy resolver h = after_resolver-Tidy _ h.log

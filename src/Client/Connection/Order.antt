-- ===== src/Client/Connection/Order.antt =====
-- The order of the states of a client.
use rabbitmq_ai.Common.{
  ℕ, ◌≡◌, refl, sym, ap, subst, ◌∙◌, true, false, Option, none, some, List, Bytes, inl, inr,
  Option-cases, Bool-cases,
}
use rabbitmq_ai.Result.{Result, ok, err, Result-cases}
use rabbitmq_ai.Config.{ConnectionConfig, validate}
use rabbitmq_ai.Frame.{IncomingFrame}
use rabbitmq_ai.Commands.Connection.{close_request_command}
use rabbitmq_ai.Handshake.{HandshakeResult, request_frame}
use rabbitmq_ai.Transport.{Transport}
use rabbitmq_ai.Transport.Preserves.{Keeps}
use rabbitmq_ai.Socket.{Socket}
use rabbitmq_ai.Socket.Connect.{ResolvedAddr, Calls, Host}
use rabbitmq_ai.Client.{ConnectionState, Thread, UnexpectedClose, StreamClient, is_open}
use rabbitmq_ai.Client.Loop.{
  is_timeout, is_dead, closed_by_loop, notify_unexpected_close, leave, io_round,
}
use rabbitmq_ai.Client.Connection
use rabbitmq_ai.Client.Connection.{
  close_request, write_ignored, close_socket, to_open, to_closing, stop, end_close, begin_destroy,
  end_destroy, begin_close, on_unexpected_close, is_disconnected, after_handshake, after_tcp,
  begin_connect, establish,
}
use rabbitmq_ai.Client.Connection.Steps.{
  Action, connect_begins, requests, stores, listens, reads, reader_stops, beats, heartbeat_stops,
  close_begins, close_stops, close_ends, Life, Step, acts, establishes, starts_threads,
  destroy_begins, destroy_ends, turned, io_ended, IsJoined, Steps, done, more, Reach,
}
use rabbitmq_ai.Client.Connection.Invariant.{is_before}
use rabbitmq_ai.Client.Connection.Reachable.{Reach-SoundLife, running-not_before}
use rabbitmq_ai.Client.Connection.Skeleton.{
  skeleton, send_and_wait-Preserves, store_offset-Preserves,
}
use rabbitmq_ai.Client.Connection.Connecting.{is_disconnected_lem}
use rabbitmq_ai.Client.Connection.Operations.{
  Keeps-at, Leaves-at, heartbeat_round-Leaves, write_ignored-skeleton,
}

-- The states that a client in the state of `c` may have next, and who may bring it there: `connect`
-- opens it or fails, `close` begins to close it and ends once both threads have ended, and the reader
-- closes an open client while it runs.
pub data Legal {W : Type 0} (c : StreamClient W) : ConnectionState → Type 0 where
  stays : {s : ConnectionState} → s ≡ c.state_ → Legal c s
  connects : c.state_ ≡ ConnectionState.disconnected → Legal c ConnectionState.connecting
  opens : c.state_ ≡ ConnectionState.connecting → Legal c ConnectionState.opened
  fails : c.state_ ≡ ConnectionState.connecting → Legal c ConnectionState.closed
  closes : c.state_ ≡ ConnectionState.opened → Legal c ConnectionState.closing
  is_lost :
      c.state_ ≡ ConnectionState.opened
      → c.io_thread_ ≡ Thread.running
      → Legal c ConnectionState.closed
  ends : c.state_ ≡ ConnectionState.closing → IsJoined c → Legal c ConnectionState.closed

-- What the reader does to the state when it ends.
closed_by_loop-Legal :
    {W : Type 0} (c : StreamClient W) (s : ConnectionState)
    → c.state_ ≡ s
    → c.io_thread_ ≡ Thread.running
    → is_before s ≡ false
    → Legal c (closed_by_loop s)
closed_by_loop-Legal c ConnectionState.disconnected e i n = absurd (cc)
closed_by_loop-Legal c ConnectionState.connecting e i n = absurd (cc)
closed_by_loop-Legal c ConnectionState.opened e i n = is_lost e i
closed_by_loop-Legal c ConnectionState.closing e i n = stays (sym e)
closed_by_loop-Legal c ConnectionState.closed e i n = stays (sym e)

is_open_lem : (s : ConnectionState) → is_open s ≡ true → s ≡ ConnectionState.opened
is_open_lem ConnectionState.disconnected h = absurd (cc)
is_open_lem ConnectionState.connecting h = absurd (cc)
is_open_lem ConnectionState.opened h = refl
is_open_lem ConnectionState.closing h = absurd (cc)
is_open_lem ConnectionState.closed h = absurd (cc)

-- A client whose state may follow that of `c`.
abbrev Follows : {W : Type 0} → StreamClient (Host W) → StreamClient (Host W) → Type 0
Follows c c' = Legal c c'.state_

module _ {W : Type 0} (os : Calls W) (resolver : Bytes → ℕ → W → Result (List ResolvedAddr) × W)
    (wire : Socket → Transport W) (fuel : ℕ) (c₀ : StreamClient (Host W))
    (connecting : c₀.state_ ≡ ConnectionState.connecting) where
  after_handshake-Follows :
      (c : StreamClient (Host W)) (q : Option (Result HandshakeResult × Host W))
      → Keeps (Follows c₀) (after_handshake os resolver wire fuel c q)
  unfolding after_handshake to_open
  after_handshake-Follows c none = tt
  after_handshake-Follows c (some (err e, h)) = fails connecting
  after_handshake-Follows c (some (ok r, h)) = opens connecting

  after_tcp-Follows :
      (c : StreamClient (Host W)) (q : Result Socket × Host W)
      → Keeps (Follows c₀) (after_tcp os resolver wire fuel c q)
  unfolding after_tcp
  after_tcp-Follows c (err e, h) = fails connecting
  after_tcp-Follows c (ok s, h) = after_handshake-Follows _ _

  establish-Follows : Keeps (Follows c₀) (establish os resolver wire fuel c₀)
  unfolding establish
  establish-Follows = after_tcp-Follows _ _

begin_connect-Follows : {W : Type 0} (c : StreamClient (Host W)) → Follows c (begin_connect c).1
unfolding begin_connect
begin_connect-Follows c = elim (Result-cases (validate c.cfg_)) [
  | inr (x, e) ↦ rw (begin_connect, e) (stays refl)
  | inl (v, e) ↦ elim (Bool-cases (is_disconnected c.state_)) [
    | inr d ↦ rw (begin_connect, e, d) (stays refl)
    | inl d ↦ rw (begin_connect, e, d) (connects (is_disconnected_lem c.state_ d))
  ]
]

module _ {W : Type 0} where
  notify-state :
      (evt : UnexpectedClose) (c : StreamClient (Host W))
      → (notify_unexpected_close evt c).state_ ≡ c.state_
  unfolding notify_unexpected_close
  notify-state evt c = elim (Bool-cases c.unexpected_fired_) [
    | inl e ↦ rw e refl
    | inr e ↦ elim (Option-cases c.on_unexpected_close_) [
      | inl o ↦ rw (e, o) refl
      | inr (cb, o) ↦ rw (e, o) refl
    ]
  ]

  leave-Legal :
      (c : StreamClient (Host W))
      → c.io_thread_ ≡ Thread.running
      → is_before c.state_ ≡ false
      → Legal c (closed_by_loop c.state_)
  leave-Legal c = closed_by_loop-Legal c c.state_ refl

  notified-Follows :
      (c₀ c : StreamClient (Host W)) (evt : UnexpectedClose)
      → c.state_ ≡ c₀.state_
      → c₀.io_thread_ ≡ Thread.running
      → is_before c₀.state_ ≡ false
      → Follows c₀ (io_ended (leave (notify_unexpected_close evt c)))
  unfolding leave
  notified-Follows c₀ c evt e i n =
      subst (λ s. Legal c₀ (closed_by_loop s)) (sym (notify-state evt c ∙ e)) (leave-Legal c₀ i n)

  io_round-Follows :
      (now : ℕ) (r : Result IncomingFrame) (c₀ c : StreamClient (Host W))
      → c.state_ ≡ c₀.state_
      → c₀.io_thread_ ≡ Thread.running
      → is_before c₀.state_ ≡ false
      → Follows c₀ (turned (io_round now r c))
  unfolding io_round leave
  io_round-Follows now (ok frame) c₀ c s i n = stays s
  io_round-Follows now (err e) c₀ c s i n = elim (Bool-cases (is_timeout e.kind)) [
    | inl q ↦ elim (Bool-cases (is_dead now c)) [
      | inl d ↦ rw (turned, q, d) (notified-Follows c₀ _ _ s i n)
      | inr d ↦ rw (turned, q, d) (stays s)
    ]
    | inr q ↦ elim (Bool-cases c.closing_) [
      | inl d ↦
          rw (turned, q, d) (subst (λ t. Legal c₀ (closed_by_loop t)) (sym s) (leave-Legal c₀ i n))
      | inr d ↦ rw (turned, q, d) (notified-Follows c₀ _ _ s i n)
    ]
  ]

begin_close-Follows :
    {W : Type 0} (wire : Socket → Transport W) (now : ℕ) (c : StreamClient (Host W))
    → Keeps (Follows c) (begin_close wire now c)
unfolding begin_close to_closing
begin_close-Follows wire now c =
    let frame : Bytes = request_frame close_request_command close_request c.next_app_cid_ in
    elim (Bool-cases (is_open c.state_)) [
      | inr b ↦ rw (Keeps, b) (stays refl)
      | inl b ↦ elim (Option-cases (write_ignored wire frame (to_closing now c))) [
        | inl e ↦ rw (Keeps, b, e) tt
        | inr (c', e) ↦
            let closing : c'.state_ ≡ ConnectionState.closing =
              ap (λ k. k.state) (write_ignored-skeleton wire frame (to_closing now c) c' e) in
            rw (Keeps, b, e) (subst (Legal c) (sym closing) (closes (is_open_lem c.state_ b)))
      ]
    ]

after_closed :
    {W : Type 0} (c : StreamClient W) {s : ConnectionState}
    → Legal c s
    → c.state_ ≡ ConnectionState.closed
    → s ≡ ConnectionState.closed
after_closed c (stays e) h = e ∙ h
after_closed c (connects d) h = absurd (cc)
after_closed c (opens d) h = absurd (cc)
after_closed c (fails d) h = refl
after_closed c (closes d) h = absurd (cc)
after_closed c (is_lost d i) h = refl
after_closed c (ends d j) h = refl

module _ {W : Type 0} (os : Calls W) (resolver : Bytes → ℕ → W → Result (List ResolvedAddr) × W)
    (wire : Socket → Transport W) (fuel : ℕ) where
  Action-Legal :
      (c c' : StreamClient (Host W))
      → (c.io_thread_ ≡ Thread.running → is_before c.state_ ≡ false)
      → Action os resolver wire fuel c c'
      → Legal c c'.state_
  unfolding on_unexpected_close leave stop close_socket end_close
  Action-Legal c _ n (connect_begins r c' e) =
      subst (λ q. Legal c q.1.state_) e (begin_connect-Follows c)
  Action-Legal c _ n (requests now sent_at during key version body r c' e) = stays (
      ap (λ k. k.state)
        (Keeps-at _ _ r c'
          ((send_and_wait-Preserves (skeleton c) (wire c.sock_) now sent_at during key version
              body).at
            c refl)
          e))
  Action-Legal c _ n (stores sent_at reference stream offset r c' e) = stays (
      ap (λ k. k.state)
        (Keeps-at _ _ r c'
          ((store_offset-Preserves (skeleton c) (wire c.sock_) sent_at reference stream offset).at c
            refl)
          e))
  Action-Legal c _ n (listens cb) = stays refl
  Action-Legal c _ n (reads now r i) = io_round-Follows now r c c refl i (n i)
  Action-Legal c _ n (reader_stops i s) = leave-Legal c i (n i)
  Action-Legal c _ n (beats now c' i e) =
      stays (ap (λ k. k.state) (Leaves-at (skeleton c) _ c' (heartbeat_round-Leaves wire now c) e))
  Action-Legal c _ n (heartbeat_stops i s) = stays refl
  Action-Legal c _ n (close_begins now r c' e) =
      Keeps-at (Follows c) _ r c' (begin_close-Follows wire now c) e
  Action-Legal c _ n (close_stops e) = stays refl
  Action-Legal c _ n (close_ends e j) = ends e j

  Step-follows :
      (l l' : Life W)
      → (l.client.io_thread_ ≡ Thread.running → is_before l.client.state_ ≡ false)
      → Step os resolver wire fuel l l'
      → Legal l.client l'.client.state_
  unfolding Connection.start_threads begin_destroy end_destroy close_socket
  Step-follows l _ n (acts c' a) = Action-Legal l.client c' n a
  Step-follows l _ n (establishes r c' d e) =
      Keeps-at (Follows l.client) _ r c' (establish-Follows os resolver wire fuel l.client d) e
  Step-follows l _ n (starts_threads li lo e) = stays refl
  Step-follows l _ n (destroy_begins e) = stays refl
  Step-follows l _ n (destroy_ends e j) = stays refl

  -- In every state that a client can be in, whatever its threads do next, the state stays as it is, or
  -- goes from disconnected to connecting, from connecting to open or closed, from open to closing,
  -- from open to closed while the reader runs, or from closing to closed while neither thread runs.
  pub Step-Legal :
      (cfg : ConnectionConfig) (w : W) (l l' : Life W)
      → Reach os resolver wire fuel cfg w l
      → Step os resolver wire fuel l l'
      → Legal l.client l'.client.state_
  Step-Legal cfg w l l' r =
      Step-follows l l'
        (running-not_before os resolver wire fuel l (Reach-SoundLife os resolver wire fuel r))

  -- Once a client is closed it stays closed, whatever its threads and its users do: there is no way to
  -- connect it again.
  pub closed_is_final :
      (l l' : Life W)
      → Steps os resolver wire fuel l l'
      → l.client.state_ ≡ ConnectionState.closed
      → l'.client.state_ ≡ ConnectionState.closed
  closed_is_final l _ done h = h
  closed_is_final l _ (more {l'} s t) h =
      let e = closed_is_final l l' s h in
      after_closed l'.client (Step-follows l' _ (λ i. ap is_before e) t) e

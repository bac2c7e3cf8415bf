-- ===== src/Client/Connection/Connecting.antt =====
-- `connect`, in its three parts.
use rabbitmq_ai.Common.{
  ℕ, ◌≡◌, ◌≢◌, refl, sym, ap, subst, ◌∙◌, Bool, true, false, Option, none, some, List, [], ◌++◌,
  append-nil, map, Bytes, inl, inr, ltb, Bool-cases, length, arith,
}
use rabbitmq_ai.Result.{Result, ok, err, is_ok, Result-cases}
use rabbitmq_ai.Config.{validate}
use rabbitmq_ai.Transport.{Transport}
use rabbitmq_ai.Transport.Preserves.{Keeps}
use rabbitmq_ai.Handshake.{HandshakeResult}
use rabbitmq_ai.Socket.{Socket, close, release, move_assign}
use rabbitmq_ai.Socket.Connect.{closes, ResolvedAddr, Calls, Host}
use rabbitmq_ai.Socket.Connect.Descriptors.{Tidy, connect_with_timeout-Tidy}
use rabbitmq_ai.Client.{ConnectionState, Thread, StreamClient}
use rabbitmq_ai.Client.Connection.{
  close_socket, assign_socket, to_open, start_threads, set_timeout, after_handshake, after_tcp,
  begin_connect, establish, is_disconnected,
}
use rabbitmq_ai.Client.Connection.Skeleton.{skeleton, HasLog, run_handshake-Preserves}
use rabbitmq_ai.Client.Connection.Invariant.{
  IsBalanced, no_socket, is_before, IsBalanced-close, Tidy-failed, Tidy-connected, SoundClient,
}

module _ {W : Type 0} (os : Calls W) where
  pub set_timeout-skeleton :
      (hb : ℕ) (c : StreamClient (Host W)) → skeleton (set_timeout os hb c) ≡ skeleton c
  unfolding set_timeout
  set_timeout-skeleton hb c = elim (Bool-cases (ltb 0 hb)) [
    | inl e ↦ rw (skeleton, e) refl
    | inr e ↦ rw (skeleton, e) refl
  ]

pub is_disconnected_lem :
    (s : ConnectionState) → is_disconnected s ≡ true → s ≡ ConnectionState.disconnected
is_disconnected_lem ConnectionState.disconnected h = refl
is_disconnected_lem ConnectionState.connecting h = absurd (cc)
is_disconnected_lem ConnectionState.opened h = absurd (cc)
is_disconnected_lem ConnectionState.closing h = absurd (cc)
is_disconnected_lem ConnectionState.closed h = absurd (cc)

-- A client while `connect` is on its way.
record IsUnderWay {W : Type 0} (c : StreamClient (Host W)) : Type 0 where
  balanced : IsBalanced c.sock_ c.world_.log
  io_thread : c.io_thread_ ≡ Thread.not_joinable
  heartbeat_thread : c.heartbeat_thread_ ≡ Thread.not_joinable
  notified : c.notified ≡ []

-- What `connect` gives, up to the open state: if it succeeds, the threads are still to start.
abbrev Established : {W : Type 0} → Option (Result (Unit {0}) × StreamClient (Host W)) → Type 0
Established none = Unit
Established (some (r, c)) = SoundClient (is_ok r) c

module _ {W : Type 0} (os : Calls W) (resolver : Bytes → ℕ → W → Result (List ResolvedAddr) × W)
    (wire : Socket → Transport W) (fuel : ℕ) where
  holds : {s : Socket} {fd : ℕ} → s ≡ record { fd_ = some fd } → s ≢ no_socket
  holds e n = cc

  after_handshake-Established :
      (c : StreamClient (Host W)) (fd : ℕ) (q : Option (Result HandshakeResult × Host W))
      → c.sock_ ≡ record { fd_ = some fd }
      → IsUnderWay c
      → Keeps (HasLog c.world_.log) q
      → Established (after_handshake os resolver wire fuel c q)
  unfolding after_handshake close_socket to_open close
  after_handshake-Established c fd none e u k = tt
  after_handshake-Established c fd (some (err x, h)) e u k = record {
    once = ground (arith, ap length u.notified);
    fresh = λ d. absurd (cc);
    starts = λ d. absurd (cc);
    balanced = IsBalanced-close c.sock_ h.log (subst (IsBalanced c.sock_) (sym k) u.balanced);
    live = λ d. absurd (cc);
  }
  after_handshake-Established c fd (some (ok r, h)) e u k =
      let c' : StreamClient (Host W) = record c {
        world_ = h;
        negotiated_frame_max_ = r.negotiated_frame_max;
        negotiated_heartbeat_ = r.negotiated_heartbeat;
        server_props_ = r.server_properties;
        conn_props_ = r.connection_properties;
      } in
      let same : skeleton (set_timeout os r.negotiated_heartbeat c') ≡ skeleton c' =
        set_timeout-skeleton os r.negotiated_heartbeat c' in
      let quiet = ap (λ s. s.notified) same ∙ u.notified in
      record {
        once = ground (arith, ap length quiet);
        fresh = λ d. absurd (cc);
        starts = λ d. record {
          state = refl;
          io_thread = ap (λ s. s.io_thread) same ∙ u.io_thread;
          heartbeat_thread = ap (λ s. s.heartbeat_thread) same ∙ u.heartbeat_thread;
          notified = quiet;
        };
        balanced =
            subst (λ s. IsBalanced s.sock s.log) (sym same)
              (subst (IsBalanced c.sock_) (sym k) u.balanced);
        live = λ d. (inl refl, λ n. absurd (holds (ap (λ s. s.sock) same ∙ e) n));
      }

  after_tcp-Established :
      (c : StreamClient (Host W)) (q : Result Socket × Host W)
      → c.sock_ ≡ no_socket
      → IsUnderWay c
      → Tidy c.world_.log q
      → Established (after_tcp os resolver wire fuel c q)
  unfolding after_tcp assign_socket move_assign close release
  after_tcp-Established c (err x, h) e u t = record {
    once = ground (arith, ap length u.notified);
    fresh = λ d. absurd (cc);
    starts = λ d. absurd (cc);
    balanced =
        subst (λ a. IsBalanced a h.log) (sym e)
          (Tidy-failed c.world_.log x h (subst (λ a. IsBalanced a c.world_.log) e u.balanced) t);
    live = λ d. absurd (cc);
  }
  after_tcp-Established c (ok s, h) e u t =
      let (fd, same, b) =
        Tidy-connected c.world_.log s h (subst (λ a. IsBalanced a c.world_.log) e u.balanced) t in
      let assigned : StreamClient (Host W) = assign_socket s (record c { world_ = h }) in
      let c' = set_timeout os c.cfg_.requested_heartbeat_seconds assigned in
      let sk : skeleton c' ≡ skeleton assigned =
        set_timeout-skeleton os c.cfg_.requested_heartbeat_seconds assigned in
      let log : assigned.world_.log ≡ h.log =
        ap (λ a. h.log ++ map closes (close a).1) e ∙ append-nil h.log in
      after_handshake-Established c' fd _ (ap (λ k. k.sock) sk ∙ same)
        (record {
          balanced =
              subst (λ k. IsBalanced k.sock k.log) (sym sk) (subst (IsBalanced s) (sym log) b);
          io_thread = ap (λ k. k.io_thread) sk ∙ u.io_thread;
          heartbeat_thread = ap (λ k. k.heartbeat_thread) sk ∙ u.heartbeat_thread;
          notified = ap (λ k. k.notified) sk ∙ u.notified;
        })
        ((run_handshake-Preserves c'.world_.log (wire c'.sock_) fuel c'.cfg_).at c'.world_ refl)

  establish-Established :
      (b : Bool) (c : StreamClient (Host W))
      → is_before c.state_ ≡ true
      → SoundClient b c
      → Established (establish os resolver wire fuel c)
  unfolding establish
  establish-Established b c d h =
      let f = h.fresh d in
      after_tcp-Established c _ f.sock
        (record {
          balanced = h.balanced;
          io_thread = f.io_thread;
          heartbeat_thread = f.heartbeat_thread;
          notified = f.notified;
        })
        (connect_with_timeout-Tidy os c.cfg_.host c.cfg_.port c.cfg_.connect_timeout resolver
          c.world_)

  pub establish-SoundClient :
      (b : Bool) (c : StreamClient (Host W)) (r : Result (Unit {0})) (c' : StreamClient (Host W))
      → c.state_ ≡ ConnectionState.connecting
      → establish os resolver wire fuel c ≡ some (r, c')
      → SoundClient b c
      → SoundClient (is_ok r) c'
  establish-SoundClient b c r c' d e h =
      subst Established e (establish-Established b c (ap is_before d) h)

module _ {W : Type 0} where
  begun :
      (b : Bool) (c : StreamClient (Host W))
      → c.state_ ≡ ConnectionState.disconnected
      → SoundClient b c
      → SoundClient b (record c { state_ = ConnectionState.connecting })
  begun b c d h =
      let f = h.fresh (ap is_before d) in
      record {
        once = h.once;
        fresh = λ d. record {
          sock = f.sock;
          io_thread = f.io_thread;
          heartbeat_thread = f.heartbeat_thread;
          notified = f.notified;
        };
        starts = λ s. absurd (let n = (h.starts s).state in let y = ap is_before d in cc);
        balanced = h.balanced;
        live = λ o. absurd (cc);
      }

  pub begin_connect-SoundClient :
      (b : Bool) (c : StreamClient (Host W)) → SoundClient b c → SoundClient b (begin_connect c).1
  unfolding begin_connect
  begin_connect-SoundClient b c h = elim (Result-cases (validate c.cfg_)) [
    | inr (x, e) ↦ rw (begin_connect, e) h
    | inl (v, e) ↦ elim (Bool-cases (is_disconnected c.state_)) [
      | inr d ↦ rw (begin_connect, e, d) h
      | inl d ↦ rw (begin_connect, e, d) (begun b c (is_disconnected_lem c.state_ d) h)
    ]
  ]

  pub start_threads-SoundClient :
      (li lo : ℕ) (c : StreamClient (Host W))
      → SoundClient true c
      → SoundClient false (start_threads li lo c)
  unfolding start_threads
  start_threads-SoundClient li lo c h =
      let s = h.starts refl in
      record {
        once = ground (arith, ap length s.notified);
        fresh = λ d. absurd (let n = s.state in cc);
        starts = λ d. absurd (cc);
        balanced = h.balanced;
        live = λ o. (inr refl, (h.live o).1);
      }

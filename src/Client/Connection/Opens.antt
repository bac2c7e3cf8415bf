-- ===== src/Client/Connection/Opens.antt =====
-- A `connect` that succeeds, from its parts.
use rabbitmq_ai.Common.{
  ℕ, ◌≡◌, refl, ap, ap₂, subst, ◌∙◌, false, some, List, Bytes, inl, inr, Option-cases, Bool-cases,
  ltb,
}
use rabbitmq_ai.Result.{Result, ok}
use rabbitmq_ai.Config.{ConnectionConfig, validate}
use rabbitmq_ai.Transport.{Transport, Io}
use rabbitmq_ai.Transport.Simulates.{Related, Simulates}
use rabbitmq_ai.Handshake.{HandshakeResult, run_handshake}
use rabbitmq_ai.Handshake.Simulates.{run_handshake-Simulates}
use rabbitmq_ai.Socket.{Socket, close, release, move_assign}
use rabbitmq_ai.Socket.Connect.{ResolvedAddr, Calls, Host, lifted, on_host, connect_with_timeout}
use rabbitmq_ai.Client.{ConnectionState, Thread, StreamClient}
use rabbitmq_ai.Client.Connection.{
  assign_socket, set_timeout, to_open, start_threads, establish, after_checks, after_handshake,
  after_tcp, begin_connect, connect, started,
}

module _ {W : Type 0} where
  -- A host on which a transport works, and its world.
  abbrev IsOn : W → Host W → Type 0
  IsOn w h = h.world ≡ w

  lifted-gives :
      {A : Type 0} (m : Io W A) (h : Host W) (x : Result A) (w : W)
      → m h.world ≡ some (x, w)
      → lifted m h ≡ some (x, record h { world = w })
  unfolding lifted
  lifted-gives m h x w e = rw (lifted, e) refl

  lifted-Simulates : {A : Type 0} (m : Io W A) → Simulates IsOn m (lifted m)
  lifted-Simulates m = record {
    at = λ w h e. elim (Option-cases (m w)) [
      | inl q ↦ rw (Related, q) tt
      | inr ((x, w'), q) ↦
          rw (Related, q) (record h { world = w' }, lifted-gives m h x w' (ap m e ∙ q), refl)
    ];
  }

  -- The handshake on a host does what it does on the world of the host.
  run_handshake-lifted :
      (t : Transport W) (fuel : ℕ) (cfg : ConnectionConfig) (h : Host W)
      (x : Result HandshakeResult) (w : W)
      → run_handshake t fuel cfg h.world ≡ some (x, w)
      → (h' : Host W) × (run_handshake (on_host t) fuel cfg h ≡ some (x, h')) × (h'.world ≡ w)
  run_handshake-lifted t fuel cfg h x w e =
      subst (λ q. Related IsOn q (run_handshake (on_host t) fuel cfg h)) e
        ((run_handshake-Simulates IsOn t (on_host t)
            (record {
              write_all = λ bytes. lifted-Simulates (t.write_all bytes);
              read_frame = lifted-Simulates t.read_frame;
            })
            fuel cfg).at
          h.world h refl)

  set_timeout-world :
      (os : Calls W) (hb : ℕ) (c : StreamClient (Host W))
      → set_timeout os hb c ≡ record c { world_ = (set_timeout os hb c).world_ }
  unfolding set_timeout
  set_timeout-world os hb c = elim (Bool-cases (ltb 0 hb)) [ inl e ↦ rw e refl | inr e ↦ rw e refl ]

-- A client that is open on the socket `s`, as the handshake settled it.
pub record IsOpened {W : Type 0} (s : Socket) (r : HandshakeResult) (c : StreamClient (Host W))
    : Type 0 where
  pub state : c.state_ ≡ ConnectionState.opened
  pub sock : c.sock_ ≡ s
  pub closing : c.closing_ ≡ false
  pub frame_max : c.negotiated_frame_max_ ≡ r.negotiated_frame_max
  pub heartbeat : c.negotiated_heartbeat_ ≡ r.negotiated_heartbeat
  pub server_properties : c.server_props_ ≡ r.server_properties
  pub connection_properties : c.conn_props_ ≡ r.connection_properties

-- The client at the start of the handshake over `s`.
abbrev pub before_handshake :
    {W : Type 0} → Calls W → StreamClient (Host W) → Socket → Host W → StreamClient (Host W)
before_handshake os c s h =
    set_timeout os c.cfg_.requested_heartbeat_seconds (assign_socket s (record c { world_ = h }))

module _ {W : Type 0} (os : Calls W) (resolver : Bytes → ℕ → W → Result (List ResolvedAddr) × W)
    (wire : Socket → Transport W) (fuel : ℕ) where
  after_handshake-opens :
      (c : StreamClient (Host W)) (r : HandshakeResult) (h : Host W)
      → (c' : StreamClient (Host W)) × (after_handshake os resolver wire fuel c (some (ok r, h))
          ≡ some (ok tt, c'))
        × IsOpened c.sock_ r c'
  unfolding after_handshake to_open
  after_handshake-opens c r h =
      let c₁ : StreamClient (Host W) = record c {
        world_ = h;
        negotiated_frame_max_ = r.negotiated_frame_max;
        negotiated_heartbeat_ = r.negotiated_heartbeat;
        server_props_ = r.server_properties;
        conn_props_ = r.connection_properties;
      } in
      let e = set_timeout-world os r.negotiated_heartbeat c₁ in
      (
        to_open (set_timeout os r.negotiated_heartbeat c₁),
        refl,
        record {
          state = refl;
          sock = ap (λ k. k.sock_) e;
          closing = refl;
          frame_max = ap (λ k. k.negotiated_frame_max_) e;
          heartbeat = ap (λ k. k.negotiated_heartbeat_) e;
          server_properties = ap (λ k. k.server_props_) e;
          connection_properties = ap (λ k. k.conn_props_) e;
        },
      )

  -- For a client that is connecting: if connect_with_timeout gives a socket, and the handshake over it
  -- succeeds, the client is open on that socket, with the limits and the properties of the handshake.
  pub establish_opens :
      (c : StreamClient (Host W)) (s : Socket) (h : Host W) (r : HandshakeResult) (w : W)
      → c.state_ ≡ ConnectionState.connecting
      → connect_with_timeout os c.cfg_.host c.cfg_.port c.cfg_.connect_timeout resolver c.world_
        ≡ (ok s, h)
      → run_handshake (wire s) fuel c.cfg_ (before_handshake os c s h).world_.world ≡ some (ok r, w)
      → (c' : StreamClient (Host W)) × (establish os resolver wire fuel c ≡ some (ok tt, c'))
        × IsOpened s r c'
  unfolding establish after_tcp assign_socket move_assign close release
  establish_opens c s h r w connecting tcp done =
      let b : StreamClient (Host W) = before_handshake os c s h in
      let same =
        set_timeout-world os c.cfg_.requested_heartbeat_seconds
          (assign_socket s (record c { world_ = h })) in
      let sock : b.sock_ ≡ s = ap (λ k. k.sock_) same in
      let cfg : b.cfg_ ≡ c.cfg_ = ap (λ k. k.cfg_) same in
      let (h', q, i) = run_handshake-lifted (wire s) fuel c.cfg_ b.world_ (ok r) w done in
      let (c', e, o) = after_handshake-opens b r h' in
      let hands : run_handshake (on_host (wire b.sock_)) fuel b.cfg_ b.world_ ≡ some (ok r, h') =
        ap₂ (λ a f. run_handshake (on_host (wire a)) fuel f b.world_) sock cfg ∙ q in
      (
        c',
        ap (after_tcp os resolver wire fuel c) tcp
            ∙ ap (after_handshake os resolver wire fuel b) hands
            ∙ e,
        subst (λ a. IsOpened a r c') sock o,
      )

  -- So `connect` opens a new client with a valid configuration, and starts its reader.
  pub connect_opens :
      (li lo : ℕ) (c : StreamClient (Host W)) (s : Socket) (h : Host W) (r : HandshakeResult)
      (w : W)
      → validate c.cfg_ ≡ ok tt
      → c.state_ ≡ ConnectionState.disconnected
      → connect_with_timeout os c.cfg_.host c.cfg_.port c.cfg_.connect_timeout resolver c.world_
        ≡ (ok s, h)
      → run_handshake
          (wire s)
          fuel
          c.cfg_
          (before_handshake os (record c { state_ = ConnectionState.connecting }) s h).world_.world
        ≡ some (ok r, w)
      → (c' : StreamClient (Host W)) × (connect os resolver wire fuel li lo c ≡ some (ok tt, c'))
        × IsOpened s r c'
        × (c'.io_thread_ ≡ Thread.running)
  unfolding connect begin_connect after_checks start_threads assign_socket set_timeout
  connect_opens li lo c s h r w valid new tcp done =
      let c₁ : StreamClient (Host W) = record c { state_ = ConnectionState.connecting } in
      let begun : begin_connect c ≡ (ok tt, c₁) = rw (begin_connect, valid, new) refl in
      let (c', e, o) = establish_opens c₁ s h r w refl tcp done in
      (
        start_threads li lo c',
        ap (after_checks os resolver wire fuel li lo) begun ∙ ap (started li lo) e,
        record {
          state = o.state;
          sock = o.sock;
          closing = o.closing;
          frame_max = o.frame_max;
          heartbeat = o.heartbeat;
          server_properties = o.server_properties;
          connection_properties = o.connection_properties;
        },
        refl,
      )

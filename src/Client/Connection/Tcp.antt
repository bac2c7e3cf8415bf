-- ===== src/Client/Connection/Tcp.antt =====
-- `connect` over TCP, from the configuration to the open client.
use rabbitmq_ai.Common.{
  ℕ, ◌-◌, ◌≤◌, ◌<◌, ◌≡◌, refl, ◌∙◌, false, Option, some, List, All, Bytes, inl, inr, Bool-cases,
  ltb, length, arith,
}
use rabbitmq_ai.Result.{Result, ok}
use rabbitmq_ai.Config.{validate}
use rabbitmq_ai.Frame.{check_outbound_frame_size}
use rabbitmq_ai.Handshake.Completes.{Peer, IsGood, answers, settled, open_frame}
use rabbitmq_ai.Socket.{Socket, Kernel, tcp}
use rabbitmq_ai.Socket.Stream.{IsStream, IsHealthy}
use rabbitmq_ai.Socket.Frames.{IsSendable}
use rabbitmq_ai.Socket.Refines.{stream_of}
use rabbitmq_ai.Socket.Completes.{tcp_handshake_completes}
use rabbitmq_ai.Socket.Connect.{ResolvedAddr, Calls, Host, connect_with_timeout}
use rabbitmq_ai.Client.{ConnectionState, Thread, StreamClient}
use rabbitmq_ai.Client.Connection.{set_timeout, assign_socket, connect}
use rabbitmq_ai.Client.Connection.Opens.{IsOpened, before_handshake, connect_opens}

-- A receive timeout moves no byte of the connection.
pub record LeavesStream {W : Type 0} (os : Calls W) {k : Kernel W} (s : IsStream k)
    (g : IsHealthy k s) : Type 0 where
  pub inbound :
      (fd : Option ℕ) (sec usec : ℕ) (w : W)
      → s.inbound (os.set_recv_timeout fd sec usec w).1 ≡ s.inbound w
  pub delays :
      (fd : Option ℕ) (sec usec : ℕ) (w : W)
      → g.delays (os.set_recv_timeout fd sec usec w).1 ≤ g.delays w

module _ {W : Type 0} (os : Calls W) {k : Kernel W} (s : IsStream k) (g : IsHealthy k s)
    (l : LeavesStream os s g) where
  set_timeout-LeavesStream :
      (hb : ℕ) (c : StreamClient (Host W))
      → (s.inbound (set_timeout os hb c).world_.world ≡ s.inbound c.world_.world)
        × (g.delays (set_timeout os hb c).world_.world ≤ g.delays c.world_.world)
  unfolding set_timeout
  set_timeout-LeavesStream hb c = elim (Bool-cases (ltb 0 hb)) [
    | inl e ↦
        rw e (l.inbound c.sock_.fd_ _ _ c.world_.world, l.delays c.sock_.fd_ _ _ c.world_.world)
    | inr e ↦ rw e (refl, omega arith)
  ]

module _ {W : Type 0} (os : Calls W) (resolver : Bytes → ℕ → W → Result (List ResolvedAddr) × W)
    (kernel : Socket → Kernel W) (interrupts fuel li lo : ℕ) where
  -- For a new client with a valid configuration without TLS: if connect_with_timeout gives a socket to a peer that
  -- accepts every step of the handshake, offers PLAIN and asks for the credentials again fewer times
  -- than the fuel, whose frames fit their fields, and the Open frame fits the negotiated FrameMax; if
  -- the connection works, is interrupted at most `interrupts` times and is left alone by a receive
  -- timeout; then `connect` succeeds, the client is open with what the two
  -- sides settled on, and its reader runs.
  pub tcp_connect_opens :
      (c : StreamClient (Host W)) (p : Peer) (sock : Socket) (h : Host W)
      (s : IsStream (kernel sock)) (g : IsHealthy (kernel sock) s)
      → validate c.cfg_ ≡ ok tt
      → c.cfg_.tls ≡ false
      → c.state_ ≡ ConnectionState.disconnected
      → connect_with_timeout os c.cfg_.host c.cfg_.port c.cfg_.connect_timeout resolver c.world_
        ≡ (ok sock, h)
      → LeavesStream os s g
      → IsGood p
      → All IsSendable (answers p)
      → p.challenges < fuel
      → check_outbound_frame_size
          (length (open_frame c.cfg_ p) - 4)
          (settled c.cfg_ p).negotiated_frame_max
        ≡ ok tt
      → g.delays h.world ≤ interrupts
      → s.inbound h.world ≡ stream_of (answers p)
      → (c' : StreamClient (Host W)) × (connect os resolver
            (λ a. tcp (kernel a) interrupts)
            fuel
            li
            lo
            c
          ≡ some (ok tt, c'))
        × IsOpened sock (settled c.cfg_ p) c'
        × (c'.io_thread_ ≡ Thread.running)
  unfolding assign_socket
  tcp_connect_opens c p sock h s g valid plain new dialled l good fits more small d i =
      let b : StreamClient (Host W) =
        before_handshake os (record c { state_ = ConnectionState.connecting }) sock h in
      let (same, later) =
        set_timeout-LeavesStream os s g l c.cfg_.requested_heartbeat_seconds
          (assign_socket sock (record c { state_ = ConnectionState.connecting; world_ = h })) in
      let (w', e, _, _) =
        tcp_handshake_completes (kernel sock) s g interrupts fuel c.cfg_ p b.world_.world good fits
          more small (omega (arith, later, d)) (same ∙ i) in
      connect_opens os resolver (λ a. tcp (kernel a) interrupts) fuel li lo c sock h
        (settled c.cfg_ p) w' valid new dialled e

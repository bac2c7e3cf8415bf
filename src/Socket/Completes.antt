-- ===== src/Socket/Completes.antt =====
-- The handshake over a socket, end to end.
use rabbitmq_ai.Common.{ℕ, ◌-◌, ◌≤◌, ◌<◌, ◌≡◌, sym, subst, some, [], ◌++◌, append-nil, All, length}
use rabbitmq_ai.Result.{ok}
use rabbitmq_ai.Config.{ConnectionConfig}
use rabbitmq_ai.Frame.{check_outbound_frame_size}
use rabbitmq_ai.Transport.Simulates.{Related}
use rabbitmq_ai.Handshake.{run_handshake}
use rabbitmq_ai.Handshake.Completes.{
  Peer, IsGood, answers, requests, settled, open_frame, run_handshake_completes,
}
use rabbitmq_ai.Socket.{Kernel, tcp}
use rabbitmq_ai.Socket.Stream.{IsStream, IsHealthy}
use rabbitmq_ai.Socket.Refines.{joined, stream_of, IsImage, run_handshake-Refines}
use rabbitmq_ai.Socket.Frames.{IsSendable}

-- Against a peer that accepts every step, offers PLAIN and asks for the credentials again any number
-- of times below the fuel, whose frames fit their fields, and if the Open frame fits the negotiated
-- FrameMax: over a socket that works and is interrupted at most `interrupts` times, from which the
-- bytes of the peer's frames can be received in whatever pieces, the handshake ends and succeeds with
-- the settled limits; exactly the bytes of the five steps are sent, and all that the peer sent is read.
pub tcp_handshake_completes :
    {W : Type 0} (k : Kernel W) (s : IsStream k) (g : IsHealthy k s) (interrupts fuel : ℕ)
    (cfg : ConnectionConfig) (p : Peer) (w : W)
    → IsGood p
    → All IsSendable (answers p)
    → p.challenges < fuel
    → check_outbound_frame_size (length (open_frame cfg p) - 4) (settled cfg p).negotiated_frame_max
      ≡ ok tt
    → g.delays w ≤ interrupts
    → s.inbound w ≡ stream_of (answers p)
    → (w' : W) × (run_handshake (tcp k interrupts) fuel cfg w ≡ some (ok (settled cfg p), w'))
      × (s.outbound w' ≡ s.outbound w ++ joined (requests cfg p))
      × (s.inbound w' ≡ [])
tcp_handshake_completes k s g interrupts fuel cfg p w good fits more small d i =
    let (w', e, r) =
      subst
        (λ q.
          Related (IsImage k s g interrupts (s.outbound w)) q
            (run_handshake (tcp k interrupts) fuel cfg w))
        (run_handshake_completes cfg p fuel good more small)
        (run_handshake-Refines k s g interrupts (s.outbound w) fuel cfg
          (record { inbox = answers p; outbox = [] }) w
          (record {
            inbound = i;
            outbound = sym (append-nil (s.outbound w));
            delays = d;
            sendable = fits;
          })) in
    (w', e, r.outbound, r.inbound)

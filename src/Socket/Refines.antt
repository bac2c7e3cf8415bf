-- ===== src/Socket/Refines.antt =====
-- The connection to a scripted peer is what a socket that works implements: the client sees whole
-- frames, the socket moves bytes.
use rabbitmq_ai.Common.{
  ℕ, ◌≤◌, ◌≡◌, sym, ap, ◌∙◌, List, [], ◌∷◌, ◌++◌, append-nil, append_assoc, All, Bytes, arith,
}
use rabbitmq_ai.Config.{ConnectionConfig}
use rabbitmq_ai.Frame.{IncomingFrame}
use rabbitmq_ai.Transport.Simulates.{Related, Simulates, Implements}
use rabbitmq_ai.Handshake.{run_handshake}
use rabbitmq_ai.Handshake.Script.{Script, read_script, scripted}
use rabbitmq_ai.Handshake.Simulates.{run_handshake-Simulates}
use rabbitmq_ai.Socket.{Kernel, tcp}
use rabbitmq_ai.Socket.Stream.{IsStream, IsHealthy}
use rabbitmq_ai.Socket.Progress.{IsAfter, write_all-ends}
use rabbitmq_ai.Socket.Frames.{bytes_of, IsSendable, read_frame-bytes_of, read_frame-closed}

abbrev pub joined : List Bytes → Bytes
joined [] = []
joined (b ∷ bs) = b ++ joined bs

abbrev pub stream_of : List IncomingFrame → Bytes
stream_of [] = []
stream_of (f ∷ fs) = bytes_of f ++ stream_of fs

joined-append : (bs : List Bytes) (b : Bytes) → joined (bs ++ b ∷ []) ≡ joined bs ++ b
joined-append [] b = append-nil b
joined-append (c ∷ bs) b =
    ap (λ t. c ++ t) (joined-append bs b) ∙ sym (append_assoc c (joined bs) b)

module _ {W : Type 0} (k : Kernel W) (s : IsStream k) (g : IsHealthy k s) (interrupts : ℕ)
    (start : Bytes) where
  -- The world of a script: the bytes of the frames to come are still to be received, and those of the
  -- frames that are sent follow what was sent before, `start`.
  pub record IsImage (script : Script) (w : W) : Type 0 where
    pub inbound : s.inbound w ≡ stream_of script.inbox
    pub outbound : s.outbound w ≡ start ++ joined script.outbox
    pub delays : g.delays w ≤ interrupts
    pub sendable : All IsSendable script.inbox

  write_all-Image :
      (bytes : Bytes)
      → Simulates IsImage (scripted.write_all bytes) ((tcp k interrupts).write_all bytes)
  write_all-Image bytes = record {
    at = λ script w r.
        let (w', e, a) = write_all-ends k s g interrupts bytes w r.delays in
        (
          w',
          e,
          record {
            inbound = a.inbound ∙ r.inbound;
            outbound =
                a.outbound
                ∙ ap (λ o. o ++ bytes) r.outbound
                ∙ append_assoc start (joined script.outbox) bytes
                ∙ ap (λ o. start ++ o) (sym (joined-append script.outbox bytes));
            delays = omega (arith, a.delays, r.delays);
            sendable = r.sendable;
          },
        );
  }

  IsImage-reads :
      (inbox left : List IncomingFrame) (outbox : List Bytes) (w w' : W)
      → IsImage (record { inbox = inbox; outbox = outbox }) w
      → IsAfter k s g w [] (stream_of left) w'
      → All IsSendable left
      → IsImage (record { inbox = left; outbox = outbox }) w'
  IsImage-reads inbox left outbox w w' r a h = record {
    inbound = a.inbound;
    outbound = a.outbound ∙ append-nil (s.outbound w) ∙ r.outbound;
    delays = omega (arith, a.delays, r.delays);
    sendable = h;
  }

  read_frame-Related :
      (inbox : List IncomingFrame) (outbox : List Bytes) (w : W)
      → IsImage (record { inbox = inbox; outbox = outbox }) w
      → Related IsImage
          (scripted.read_frame (record { inbox = inbox; outbox = outbox }))
          ((tcp k interrupts).read_frame w)
  unfolding read_script
  read_frame-Related [] outbox w r =
      let (w', e, a) = read_frame-closed k s g interrupts w r.delays r.inbound in
      (w', e, IsImage-reads [] [] outbox w w' r a tt)
  read_frame-Related (f ∷ fs) outbox w r =
      let (w', e, a) =
        read_frame-bytes_of k s g interrupts f (stream_of fs) w r.sendable.0 r.delays r.inbound in
      (w', e, IsImage-reads (f ∷ fs) fs outbox w w' r a r.sendable.1)

  pub tcp-Implements : Implements IsImage scripted (tcp k interrupts)
  tcp-Implements = record {
    write_all = write_all-Image;
    read_frame = record { at = λ script w r. read_frame-Related script.inbox script.outbox w r };
  }

  -- The handshake over a socket that works refines the one against a script of whole frames: from a
  -- world that is the image of the script, it returns what the other returns, in a world that is the
  -- image of the script that is left, wherever the authentication loop does not run out of fuel.
  pub run_handshake-Refines :
      (fuel : ℕ) (cfg : ConnectionConfig) (script : Script) (w : W)
      → IsImage script w
      → Related IsImage
          (run_handshake scripted fuel cfg script)
          (run_handshake (tcp k interrupts) fuel cfg w)
  run_handshake-Refines fuel cfg script w =
      (run_handshake-Simulates IsImage scripted (tcp k interrupts) tcp-Implements fuel cfg).at
        script w

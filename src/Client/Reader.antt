-- ===== src/Client/Reader.antt =====
-- src/client.cpp, io_loop with its reads: the reader thread over a transport.
use rabbitmq_ai.Common.{
  ℕ, ◌+◌, ◌⊎◌, false, ◌≤◌, ◌≡◌, refl, ap, ◌∙◌, Option, none, some, List, [], ◌∷◌, ◌++◌,
  append_assoc, append-nil, All, Bytes, length, if◌then◌else◌, arith,
}
use rabbitmq_ai.Result.{Result, ok}
use rabbitmq_ai.Frame.{IncomingFrame}
use rabbitmq_ai.Transport.{Transport}
use rabbitmq_ai.Dispatcher.Steps.{Operation, reaps, dispatches, step, run}
use rabbitmq_ai.Socket.{Kernel, tcp}
use rabbitmq_ai.Socket.Stream.{IsStream, IsHealthy}
use rabbitmq_ai.Socket.Frames.{bytes_of, IsSendable, read_frame-bytes_of}
use rabbitmq_ai.Socket.Refines.{stream_of}
use rabbitmq_ai.Client.{StreamClient}
use rabbitmq_ai.Client.Loop.{leave, io_round}

-- A round at the time `now` on what `read_frame` gave; `again` is the rest of the loop.
unfoldable pub after_read :
    {W : Type 0}
    → (StreamClient W → Option (StreamClient W))
    → ℕ
    → StreamClient W
    → Option (Result IncomingFrame × W)
    → Option (StreamClient W)
after_read again now c none = none
after_read again now c (some (r, w)) =
    let (goes_on, c') = io_round now r (record c { world_ = w }) in
    let rest = again c' in if goes_on then rest else some c'

-- `while (!stop_io_)`, with a round for each time in the list; the loop may end before.
unfoldable pub read_rounds :
    {W : Type 0} → Transport W → List ℕ → StreamClient W → Option (StreamClient W)
read_rounds t [] c = some c
read_rounds t (now ∷ nows) c =
    let round = after_read (read_rounds t nows) now c (t.read_frame c.world_) in
    if c.stop_io_ then some (leave c) else round

-- What the reader does with frames that arrive at these times, to the dispatcher.
abbrev pub deliveries : List ℕ → List IncomingFrame → List Operation
deliveries [] fs = []
deliveries (now ∷ nows) [] = []
deliveries (now ∷ nows) (f ∷ fs) = reaps now ∷ dispatches f ∷ deliveries nows fs

-- A frame whose size, without its own four bytes, is within the limit, where 0 is none.
abbrev pub IsWithin : ℕ → IncomingFrame → Type 0
IsWithin frame_max f = (frame_max ≡ 0) ⊎ (length (bytes_of f) ≤ frame_max + 4)

module _ {W : Type 0} (k : Kernel W) (s : IsStream k) (g : IsHealthy k s) (interrupts : ℕ) where
  pub record HasDelivered (c : StreamClient W) (during : List Operation) (rest : Bytes)
      (c' : StreamClient W) : Type 0 where
    pub dispatcher : c'.dispatcher_ ≡ run c.dispatcher_ during
    pub inbound : s.inbound c'.world_ ≡ rest
    pub outbound : s.outbound c'.world_ ≡ s.outbound c.world_
    pub state : c'.state_ ≡ c.state_

  -- If what the peer has sent starts with the bytes of frames that fit their fields and the negotiated
  -- FrameMax, one for each round, and the reader is not told to stop, then on a connection that works and is interrupted at most `interrupts` times, these rounds
  -- of the reader thread end and go on: each frame is dispatched, in order and after a reap at its
  -- time, no other operation is made on the dispatcher, all that follows the frames is left to be
  -- received, and the state of the client stays.
  pub read_rounds-deliver :
      (nows : List ℕ) (fs : List IncomingFrame) (rest : Bytes) (c : StreamClient W)
      → c.stop_io_ ≡ false
      → length nows ≡ length fs
      → All IsSendable fs
      → All (IsWithin c.negotiated_frame_max_) fs
      → g.delays c.world_ ≤ interrupts
      → s.inbound c.world_ ≡ stream_of fs ++ rest
      → (c' : StreamClient W) × (read_rounds (tcp k interrupts) nows c ≡ some c')
        × HasDelivered c (deliveries nows fs) rest c'
  unfolding read_rounds after_read io_round run step
  read_rounds-deliver [] [] rest c n e h l d i =
      (c, refl, record { dispatcher = refl; inbound = i; outbound = refl; state = refl })
  read_rounds-deliver [] (f ∷ fs) rest c n e h l d i = absurd (omega arith)
  read_rounds-deliver (now ∷ nows) [] rest c n e h l d i = absurd (omega arith)
  read_rounds-deliver (now ∷ nows) (f ∷ fs) rest c n e h l d i =
      let (w, q, a) =
        read_frame-bytes_of k s g interrupts f (stream_of fs ++ rest) c.world_ h.0 d
          (i ∙ append_assoc (bytes_of f) (stream_of fs) rest) in
      let c₁ : StreamClient W = (io_round now (ok f) (record c { world_ = w })).1 in
      let (c', q', r) =
        read_rounds-deliver nows fs rest c₁ n (omega arith) h.1 l.1 (omega (arith, a.delays))
          a.inbound in
      (
        c',
        ap
              (λ b.
                if b
                then some (leave c)
                else after_read (read_rounds (tcp k interrupts) nows) now c
                    ((tcp k interrupts).read_frame c.world_))
              n
            ∙ ap (after_read (read_rounds (tcp k interrupts) nows) now c) q
            ∙ q',
        record {
          dispatcher = r.dispatcher;
          inbound = r.inbound;
          outbound = r.outbound ∙ a.outbound ∙ append-nil (s.outbound c.world_);
          state = r.state;
        },
      )

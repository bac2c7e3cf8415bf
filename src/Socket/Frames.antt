-- ===== src/Socket/Frames.antt =====
-- SocketReader::read_frame on a connection that works: one frame, from any pieces.
use rabbitmq_ai.Common.{
  ℕ, ◌+◌, ◌/◌, ◌%◌, ◌^◌, ◌≤◌, ◌<◌, ◌≡◌, refl, sym, ap, subst, ◌∙◌, true, false, Option, none, some,
  [], ◌++◌, append-nil, append_assoc, Bytes, length, arith, le→ltb-false,
}
use rabbitmq_ai.Result.{ok, err}
use rabbitmq_ai.Buffer.{new_reader}
use rabbitmq_ai.Codec.Words.{big_endian, value32}
use rabbitmq_ai.Transport.{from, stops_if, starts, fails}
use rabbitmq_ai.Frame.{IncomingFrame, encode_request_frame, encode_oneway_frame, read_frame_auto}
use rabbitmq_ai.Frame.Key.{is_response}
use rabbitmq_ai.Frame.Wire.{
  framed, length-big_endian_4, request_payload, oneway_payload, encode_request_frame_lem,
  encode_oneway_frame_lem,
}
use rabbitmq_ai.Frame.RoundTrip.{IsReceived, received, received-response, received-oneway}
use rabbitmq_ai.Socket.{
  Kernel, return_timeout, treat_as_error, size_of, read_exact, read_frame, peer_closed,
}
use rabbitmq_ai.Socket.Stream.{IsStream, IsHealthy}
use rabbitmq_ai.Socket.Progress.{IsAfter, read_exact-ends, read_exact-closed}

-- The size that the reader computes is the one that was written.
size_of-big_endian : (v : ℕ) → v < 2 ^ 32 → size_of (big_endian 4 v) ≡ v
unfolding size_of big_endian
size_of-big_endian v h =
    let e =
      value32 (v / 2 ^ 24 % 256) (v / 2 ^ 16 % 256) (v / 2 ^ 8 % 256) (v / 1 % 256) (omega arith)
        (omega arith) (omega arith) (omega arith) in
    omega (arith, e)

-- The bytes of a frame that a peer sends.
abbrev pub bytes_of : IncomingFrame → Bytes
bytes_of f = elim f.correlation_id [
  | none ↦ encode_oneway_frame f.key f.version f.body
  | some cid ↦ encode_request_frame f.key f.version cid f.body
]

-- The frames that a peer sends: those with the key of a response have an id, the others have none.
abbrev pub HasOwnKind : ℕ → Option ℕ → Type 0
HasOwnKind key none = is_response key ≡ false
HasOwnKind key (some cid) = (is_response key ≡ true) × (cid < 2 ^ 32)

pub record IsSendable (f : IncomingFrame) : Type 0 where
  pub key : f.key < 2 ^ 16
  pub version : f.version < 2 ^ 16
  pub fits : 8 + length f.body < 2 ^ 32
  pub kind : HasOwnKind f.key f.correlation_id

-- What a frame is to the reader.
record IsWire (bytes : Bytes) (f : IncomingFrame) : Type 0 where
  payload : Bytes
  is_framed : bytes ≡ framed payload
  long : 4 ≤ length payload
  fits : length payload < 2 ^ 32
  is_read : (read_frame_auto (new_reader bytes)).0 ≡ ok f

IsReceived-alone :
    (bytes : Bytes) (f : IncomingFrame)
    → IsReceived bytes [] f
    → (read_frame_auto (new_reader bytes)).0 ≡ ok f
IsReceived-alone bytes f h =
    subst (λ bs. (read_frame_auto (new_reader bs)).0 ≡ ok f) (append-nil bytes) (ap (λ p. p.0) h)

IsWire-received :
    (key version : ℕ) (body : Bytes) (cid : Option ℕ)
    → IsSendable (received key version body cid)
    → IsWire (bytes_of (received key version body cid)) (received key version body cid)
unfolding big_endian
IsWire-received key version body none h = record {
  payload = oneway_payload key version body;
  is_framed = encode_oneway_frame_lem key version body;
  long = omega arith;
  fits = omega (arith, h.fits);
  is_read =
      IsReceived-alone _ _
        (received-oneway key version body [] h.key h.version (omega (arith, h.fits)) h.kind);
}
IsWire-received key version body (some cid) h = record {
  payload = request_payload key version cid body;
  is_framed = encode_request_frame_lem key version cid body;
  long = omega arith;
  fits = omega (arith, h.fits);
  is_read =
      IsReceived-alone _ _
        (received-response key version cid body [] h.key h.version h.kind.1 h.fits h.kind.0);
}

IsWire-bytes_of : (f : IncomingFrame) → IsSendable f → IsWire (bytes_of f) f
IsWire-bytes_of f = IsWire-received f.key f.version f.body f.correlation_id

module _ {W : Type 0} (k : Kernel W) (s : IsStream k) (g : IsHealthy k s) where
  pub IsAfter-then :
      (w w₁ w₂ : W) (xs ys left left' : Bytes)
      → IsAfter k s g w xs left w₁
      → IsAfter k s g w₁ ys left' w₂
      → IsAfter k s g w (xs ++ ys) left' w₂
  IsAfter-then w w₁ w₂ xs ys left left' a b = record {
    outbound = b.outbound ∙ ap (λ o. o ++ ys) a.outbound ∙ append_assoc (s.outbound w) xs ys;
    inbound = b.inbound;
    delays = omega (arith, a.delays, b.delays);
  }

  read_frame-wire :
      (interrupts : ℕ) (bytes rest : Bytes) (f : IncomingFrame) (w : W)
      → IsWire bytes f
      → g.delays w ≤ interrupts
      → s.inbound w ≡ bytes ++ rest
      → (w' : W) × (read_frame k interrupts w ≡ some (ok f, w')) × IsAfter k s g w [] rest w'
  unfolding read_frame stops_if from
  read_frame-wire interrupts bytes rest f w h d i =
      let n : ℕ = length h.payload in
      let e : n % 2 ^ 32 ≡ n = omega (arith, h.fits) in
      let shape : bytes ≡ big_endian 4 n ++ h.payload =
        h.is_framed ∙ ap (λ m. big_endian 4 m ++ h.payload) e in
      let size : size_of (big_endian 4 n) ≡ n = size_of-big_endian n h.fits in
      let (w₁, q₁, a₁) =
        read_exact-ends k s g interrupts return_timeout (big_endian 4 n) (h.payload ++ rest) w d
          (i ∙ ap (λ t. t ++ rest) shape ∙ append_assoc (big_endian 4 n) h.payload rest) in
      let (w₂, q₂, a₂) =
        read_exact-ends k s g interrupts treat_as_error h.payload rest w₁ (omega (arith, a₁.delays))
          a₁.inbound in
      (
        w₂,
        starts _ _ w w₁ (big_endian 4 n) (
              subst
                (λ m. read_exact k interrupts m return_timeout w ≡ some (ok (big_endian 4 n), w₁))
                (length-big_endian_4 n) q₁)
            ∙ starts _ _ w₁ w₁ tt (rw (size, le→ltb-false n 4 h.long) refl)
            ∙ starts _ _ w₁ w₂ h.payload
                (ap (λ m. read_exact k interrupts m treat_as_error w₁) size ∙ q₂)
            ∙ ap (λ x. some (x, w₂))
                (ap (λ bs. (read_frame_auto (new_reader bs)).0) (sym shape) ∙ h.is_read),
        IsAfter-then w w₁ w₂ [] [] _ _ a₁ a₂,
      )

  -- If what the peer has sent starts with the bytes of a frame, on a connection that works and is
  -- interrupted at most `interrupts` times, read_frame ends and gives that frame, however the kernel
  -- cuts the bytes, and leaves all that follows the frame.
  pub read_frame-bytes_of :
      (interrupts : ℕ) (f : IncomingFrame) (rest : Bytes) (w : W)
      → IsSendable f
      → g.delays w ≤ interrupts
      → s.inbound w ≡ bytes_of f ++ rest
      → (w' : W) × (read_frame k interrupts w ≡ some (ok f, w')) × IsAfter k s g w [] rest w'
  read_frame-bytes_of interrupts f rest w h =
      read_frame-wire interrupts (bytes_of f) rest f w (IsWire-bytes_of f h)

  -- At the end of the stream, read_frame ends with ConnectionClosed.
  pub read_frame-closed :
      (interrupts : ℕ) (w : W)
      → g.delays w ≤ interrupts
      → s.inbound w ≡ []
      → (w' : W) × (read_frame k interrupts w ≡ some (err peer_closed, w'))
        × IsAfter k s g w [] [] w'
  unfolding read_frame
  read_frame-closed interrupts w d i =
      let (w₁, q, a) = read_exact-closed k s g interrupts 3 return_timeout w d i in
      (w₁, fails _ _ w w₁ peer_closed q, a)

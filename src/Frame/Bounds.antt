-- ===== src/Frame/Bounds.antt =====
-- read_frame_auto on input that need not be a frame.
use rabbitmq_ai.Common.{ℕ, ◌≡◌, refl, ◌⊎◌, inl, inr, Bool, true, false, Bytes, arith}
use rabbitmq_ai.Errors.{Kind, StreamError}
use rabbitmq_ai.Buffer.{Read, new_reader, fail_if}
use rabbitmq_ai.Buffer.Reads.{new_reader-IsBounded}
use rabbitmq_ai.Buffer.Bounds.{
  IsDecodeError, Ends, Careful, Careful-pure, Careful-gets, Careful-bind, Careful-map, Careful-if,
  Careful-borrow,
}
use rabbitmq_ai.Codec.Bounds.{Careful-read_u16, Careful-read_u32}
use rabbitmq_ai.Frame.{read_correlation_id, read_frame_body, read_frame_auto}
use rabbitmq_ai.Frame.Key.{is_response}

-- The errors of a frame that cannot be read.
abbrev pub IsFrameError : StreamError → Type 0
IsFrameError e = (e.kind ≡ Kind.decode_error) ⊎ (e.kind ≡ Kind.protocol_violation)

weaker : {A : Type 0} (m : Read A) → Careful IsDecodeError m → Careful IsFrameError m
weaker m h = record {
  at = λ r b.
      let p = h.at r b in
      record {
        bounded = p.bounded;
        same = p.same;
        forward = p.forward;
        failure = λ e q. inl (p.failure e q);
      };
}

Careful-fail_if : (b : Bool) (e : StreamError) → IsFrameError e → Careful IsFrameError (fail_if b e)
unfolding fail_if
Careful-fail_if true e h = record {
  at = λ r b. record {
    bounded = b;
    same = refl;
    forward = omega arith;
    failure = λ e' q. ground (arith, h);
  };
}
Careful-fail_if false e h = record {
  at = λ r b. record { bounded = b; same = refl; forward = omega arith; failure = λ e' q. cc };
}

Careful-read_correlation_id : (key : ℕ) → Careful IsDecodeError (read_correlation_id key)
unfolding read_correlation_id
Careful-read_correlation_id key =
    Careful-if (is_response key) _ _ (Careful-map _ _ Careful-read_u32) (Careful-pure _)

Careful-read_frame_body : (declared : ℕ) → Careful IsDecodeError (read_frame_body declared)
unfolding read_frame_body
Careful-read_frame_body declared = Careful-bind _ _ (Careful-gets _) λ start.
    Careful-bind _ _ Careful-read_u16 λ key. Careful-bind _ _ Careful-read_u16 λ version.
      Careful-bind _ _ (Careful-read_correlation_id key)
        λ cid. Careful-bind _ _ (Careful-gets _) λ now. Careful-map _ _ (Careful-borrow _)

Careful-read_frame_auto : Careful IsFrameError read_frame_auto
unfolding read_frame_auto
Careful-read_frame_auto = Careful-bind _ _ (weaker _ Careful-read_u32) λ declared.
    Careful-bind _ _ (Careful-fail_if _ _ (inr refl)) λ _. Careful-bind _ _ (Careful-gets _) λ left.
      Careful-bind _ _ (Careful-fail_if _ _ (inl refl))
        λ _. weaker _ (Careful-read_frame_body declared)

-- On any input whatever, read_frame_auto gives a frame or fails with a DecodeError or a
-- ProtocolViolation, and leaves its cursor on the same input, no further back than it began and inside
-- the input, also where the declared size lies.
pub read_frame_auto-Ends :
    (input : Bytes) → Ends IsFrameError (new_reader input) (read_frame_auto (new_reader input))
read_frame_auto-Ends input =
    Careful-read_frame_auto.at (new_reader input) (new_reader-IsBounded input)

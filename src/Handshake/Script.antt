-- ===== src/Handshake/Script.antt =====
-- A transport to a peer whose frames are scripted, and one request or answer over it.
use rabbitmq_ai.Common.{
  ℕ, ◌-◌, ◌≡◌, refl, ap, ◌∙◌, subst, Option, none, some, List, [], ◌∷◌, ◌++◌, append-nil, Bytes,
  text, length, arith,
}
use rabbitmq_ai.Errors.{Kind, stream_error}
use rabbitmq_ai.Result.{Result, ok, err}
use rabbitmq_ai.Buffer.{new_reader}
use rabbitmq_ai.Codec.Carries.{Carries, Carries-run, encoded}
use rabbitmq_ai.Frame.{IncomingFrame, check_outbound_frame_size}
use rabbitmq_ai.Transport.{Transport, from, stops_if, starts}
use rabbitmq_ai.Commands.{Command}
use rabbitmq_ai.Handshake.{
  request_frame, oneway_frame, is_other_id, send_request, send_oneway, recv_response, recv_oneway,
}

-- The frames that the peer will send, and those that it has received.
pub record Script : Type 0 where
  pub inbox : List IncomingFrame
  pub outbox : List Bytes

unfoldable pub read_script : Script → Result IncomingFrame × Script
read_script s = elim s.inbox [
  | [] ↦ (err (stream_error Kind.connection_closed (text "peer closed connection")), s)
  | fr ∷ frs ↦ (ok fr, record s { inbox = frs })
]

abbrev pub scripted : Transport Script
scripted = record {
  write_all = λ frame s. some (ok tt, record s { outbox = s.outbox ++ frame ∷ [] });
  read_frame = λ s. some (read_script s);
}

-- The frame in which the peer answers with `c`.
abbrev pub answer : {Cmd : Type 0} → Command Cmd → Cmd → Option ℕ → IncomingFrame
answer cmd c cid = record {
  key = cmd.key;
  version = cmd.version;
  body = encoded (cmd.encode_body c);
  correlation_id = cid;
}

module _ {Cmd : Type 0} (cmd : Command Cmd) (c : Cmd) where
  pub decodes :
      Carries (cmd.encode_body c) cmd.decode_body c
      → (cmd.decode_body (new_reader (encoded (cmd.encode_body c)))).0 ≡ ok c
  decodes h =
      subst (λ xs. (cmd.decode_body (new_reader xs)).0 ≡ ok c)
        (append-nil (encoded (cmd.encode_body c)))
        (ap (λ p. p.0) (Carries-run (cmd.encode_body c) cmd.decode_body c [] h))

  pub sends :
      (cid frame_max : ℕ) (s : Script)
      → check_outbound_frame_size (length (request_frame cmd c cid) - 4) frame_max ≡ ok tt
      → send_request scripted cmd c cid frame_max s
        ≡ some (ok tt, record s { outbox = s.outbox ++ request_frame cmd c cid ∷ [] })
  unfolding send_request from
  sends cid frame_max s h = starts _ _ s s tt (λ i. some (h i, s))

  pub sends_oneway :
      (s : Script)
      → send_oneway scripted cmd c 0 s
        ≡ some (ok tt, record s { outbox = s.outbox ++ oneway_frame cmd c ∷ [] })
  unfolding send_oneway from check_outbound_frame_size
  sends_oneway s = starts _ _ s s tt refl

  pub receives :
      (cid : ℕ) (frs : List IncomingFrame) (out : List Bytes)
      → Carries (cmd.encode_body c) cmd.decode_body c
      → recv_response scripted cmd cid
          (record { inbox = answer cmd c (some cid) ∷ frs; outbox = out })
        ≡ some (ok c, record { inbox = frs; outbox = out })
  unfolding recv_response from stops_if is_other_id read_script
  receives cid frs out h =
      let s : Script = record { inbox = frs; outbox = out } in
      starts _ _ _ s (answer cmd c (some cid)) refl
      ∙ starts _ _ s s tt (ground arith)
      ∙ starts _ _ s s tt (ground arith)
      ∙ (λ i. some (decodes h i, s))

  pub receives_oneway :
      (frs : List IncomingFrame) (out : List Bytes)
      → Carries (cmd.encode_body c) cmd.decode_body c
      → recv_oneway scripted cmd (record { inbox = answer cmd c none ∷ frs; outbox = out })
        ≡ some (ok c, record { inbox = frs; outbox = out })
  unfolding recv_oneway from stops_if read_script
  receives_oneway frs out h =
      let s : Script = record { inbox = frs; outbox = out } in
      starts _ _ _ s (answer cmd c none) refl
      ∙ starts _ _ s s tt (ground arith)
      ∙ (λ i. some (decodes h i, s))

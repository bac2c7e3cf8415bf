-- ===== src/Handshake/Refuses.antt =====
-- What makes the handshake stop, and what has been sent by then.
use rabbitmq_ai.Common.{
  ℕ, ◌≡◌, ◌≢◌, refl, ap, ◌∙◌, sym, ◌⊎◌, inl, inr, true, false, not, ◌&&◌, Option, none, some, List,
  [], ◌∷◌, ◌++◌, Bytes, text, All, ◌==◌, if◌then◌else◌, arith, Bool-cases, ==→eq, ne→==-false,
}
use rabbitmq_ai.Errors.{Kind, stream_error}
use rabbitmq_ai.Result.{ok, err}
use rabbitmq_ai.Codec.Strings.{IsText, IsShort}
use rabbitmq_ai.Frame.{IncomingFrame, check_outbound_frame_size}
use rabbitmq_ai.Frame.ResponseCode
use rabbitmq_ai.Config.{ConnectionConfig}
use rabbitmq_ai.Transport.{Transport, stops_if, starts, fails, stops, passes, halts}
use rabbitmq_ai.Commands.{Command, KeyValue}
use rabbitmq_ai.Commands.Arrays.{IsProperties}
use rabbitmq_ai.Commands.RoundTrip
use rabbitmq_ai.Commands.Handshake.{
  sasl_handshake_request, peer_properties_request_command, peer_properties_response_command,
  sasl_handshake_request_command, sasl_handshake_response_command,
}
use rabbitmq_ai.Handshake.{
  request_frame, is_other_id, unexpected_key, id_mismatch, recv_response, client_properties,
  plain_supported, offered, map_response_code, run_handshake,
}
use rabbitmq_ai.Handshake.Script.{scripted, answer, sends, receives}

wrong_id :
    (key expected_key : ℕ) (o : Option ℕ) (cid : ℕ)
    → cid ≢ 0
    → (key == expected_key) ≡ true
    → (key ≢ expected_key) ⊎ (o ≢ some cid)
    → (not (cid == 0) && is_other_id o cid) ≡ true
unfolding is_other_id
wrong_id key expected_key none cid k same bad = ground arith
wrong_id key expected_key (some x) cid k same (inl other) =
    absurd (other (==→eq key expected_key same))
wrong_id key expected_key (some x) cid k same (inr other) =
    ground (arith, k, ne→==-false x cid (λ q. other (ap some q)))

-- Over any transport, a frame that arrives with another key than the one awaited, or with another
-- correlation id than the one awaited (which is not 0) or with none, is refused with a
-- ProtocolViolation; its body is not decoded.
pub recv_response-refuses :
    {W Cmd : Type 0} (t : Transport W) (cmd : Command Cmd) (cid : ℕ) (w w' : W) (fr : IncomingFrame)
    → t.read_frame w ≡ some (ok fr, w')
    → cid ≢ 0
    → (fr.key ≢ cmd.key) ⊎ (fr.correlation_id ≢ some cid)
    → recv_response t cmd cid w
      ≡ some (err (if fr.key == cmd.key then id_mismatch else unexpected_key), w')
unfolding recv_response stops_if is_other_id
recv_response-refuses t cmd cid w w' fr h k bad =
    starts _ _ w w' fr h ∙ elim (Bool-cases (fr.key == cmd.key)) [
      | inl same ↦
          starts _ _ w' w' tt (passes _ _ _ same)
          ∙ fails _ _ w' w' id_mismatch (halts _ _ _ (wrong_id _ _ _ _ k same bad))
          ∙ ap (λ b. some (err (if b then id_mismatch else unexpected_key), w')) (sym same)
      | inr other ↦
          fails _ _ w' w' unexpected_key (stops _ _ _ other)
          ∙ ap (λ b. some (err (if b then id_mismatch else unexpected_key), w')) (sym other)
    ]

-- If the peer accepts PeerProperties and answers SaslHandshake with Ok, in frames that fit the wire,
-- but does not offer PLAIN, the handshake ends with SaslMechanismNotSupported, and the client has sent
-- the first two requests only: the credentials never leave it.
pub run_handshake_no_plain :
    (cfg : ConnectionConfig) (fuel : ℕ) (properties : List KeyValue) (mechanisms : List Bytes)
    (frs : List IncomingFrame)
    → IsProperties properties
    → IsShort mechanisms
    → All IsText mechanisms
    → plain_supported mechanisms ≡ false
    → run_handshake scripted fuel cfg (record {
      inbox =
          answer peer_properties_response_command
            (record { response_code = ResponseCode.ok; properties = properties })
            (some 1)
          ∷ answer sasl_handshake_response_command
              (record { response_code = ResponseCode.ok; mechanisms = mechanisms })
              (some 2)
          ∷ frs;
      outbox = [];
    })
      ≡ some (
        err (
            stream_error Kind.sasl_mechanism_not_supported
              (text "server does not offer PLAIN; offered: " ++ offered mechanisms)),
        record {
          inbox = frs;
          outbox =
              request_frame peer_properties_request_command
                (record { properties = client_properties cfg })
                1
              ∷ request_frame sasl_handshake_request_command sasl_handshake_request 2
              ∷ [];
        },
      )
unfolding run_handshake stops_if check_outbound_frame_size
run_handshake_no_plain cfg fuel properties mechanisms frs g few i no_plain =
    starts _ _ _ _ tt (sends peer_properties_request_command _ 1 0 _ refl)
    ∙ starts _ _ _ _ _ (
        receives peer_properties_response_command _ 1 _ _
          (RoundTrip.Carries-peer_properties_response _ (omega arith) g))
    ∙ starts _ _ _ _ tt refl
    ∙ starts _ _ _ _ tt (sends sasl_handshake_request_command _ 2 0 _ refl)
    ∙ starts _ _ _ _ _ (
        receives sasl_handshake_response_command _ 2 _ _
          (RoundTrip.Carries-sasl_handshake_response _ (omega arith) few i))
    ∙ starts _ _ _ _ tt refl
    ∙ fails _ _ _ _ _ (stops _ _ _ no_plain)

-- If the peer answers the first request with a 16-bit code other than Ok and properties that fit the
-- wire, the handshake ends with the error of that code, and nothing more is sent.
pub run_handshake_refused :
    (cfg : ConnectionConfig) (fuel code : ℕ) (properties : List KeyValue) (frs : List IncomingFrame)
    → RoundTrip.IsU16 code
    → code ≢ ResponseCode.ok
    → IsProperties properties
    → run_handshake scripted fuel cfg (record {
      inbox =
          answer peer_properties_response_command
            (record { response_code = code; properties = properties })
            (some 1)
          ∷ frs;
      outbox = [];
    })
      ≡ some (
        err (map_response_code code (text "PeerProperties")),
        record {
          inbox = frs;
          outbox =
              request_frame peer_properties_request_command
                (record { properties = client_properties cfg })
                1
              ∷ [];
        },
      )
unfolding run_handshake stops_if check_outbound_frame_size
run_handshake_refused cfg fuel code properties frs h bad g =
    starts _ _ _ _ tt (sends peer_properties_request_command _ 1 0 _ refl)
    ∙ starts _ _ _ _ _ (
        receives peer_properties_response_command _ 1 _ _
          (RoundTrip.Carries-peer_properties_response _ h g))
    ∙ fails _ _ _ _ _ (stops _ _ _ (ground (arith, bad)))

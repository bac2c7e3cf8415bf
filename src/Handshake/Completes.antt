-- ===== src/Handshake/Completes.antt =====
-- The handshake against a peer that follows the protocol.
use rabbitmq_ai.Common.{
  ℕ, zero, suc, ◌-◌, ◌<◌, ◌≡◌, refl, ap, ◌∙◌, true, Option, none, some, List, [], ◌∷◌, ◌++◌,
  append_assoc, Bytes, text, length, All, arith,
}
use rabbitmq_ai.Result.{ok}
use rabbitmq_ai.Codec.Strings.{IsText, IsShort, IsShortOpt}
use rabbitmq_ai.Frame.{IncomingFrame, check_outbound_frame_size}
use rabbitmq_ai.Frame.ResponseCode
use rabbitmq_ai.Config.{ConnectionConfig}
use rabbitmq_ai.Transport.{returns, stops_if, starts, passes}
use rabbitmq_ai.Commands.{KeyValue}
use rabbitmq_ai.Commands.Arrays.{IsProperties}
use rabbitmq_ai.Commands.RoundTrip
use rabbitmq_ai.Commands.RoundTrip.{IsU32}
use rabbitmq_ai.Commands.Handshake.{
  SaslAuthenticateRequest, sasl_handshake_request, peer_properties_request_command,
  peer_properties_response_command, sasl_handshake_request_command, sasl_handshake_response_command,
  sasl_authenticate_request_command, sasl_authenticate_response_command,
}
use rabbitmq_ai.Commands.Connection.{
  Tune, tune_command, open_request_command, open_response_command,
}
use rabbitmq_ai.Handshake.{
  HandshakeResult, request_frame, oneway_frame, cid_after, client_properties, plain_supported,
  plain_payload, negotiate_frame_max, negotiate_heartbeat, authenticate, run_handshake,
}
use rabbitmq_ai.Handshake.Script.{scripted, answer, sends, sends_oneway, receives, receives_oneway}

-- What the peer says in each step; it asks for the credentials again `challenges` times.
pub record Peer : Type 0 where
  pub properties : List KeyValue
  pub mechanisms : List Bytes
  pub challenges : ℕ
  pub sasl_data : Option Bytes
  pub tune : Tune
  pub connection_properties : List KeyValue

-- All of it fits the wire, and PLAIN is among the mechanisms.
pub record IsGood (p : Peer) : Type 0 where
  pub properties : IsProperties p.properties
  pub mechanisms : All IsText p.mechanisms
  pub few : IsShort p.mechanisms
  pub offers_plain : plain_supported p.mechanisms ≡ true
  pub sasl_data : IsShortOpt p.sasl_data
  pub frame_max : IsU32 p.tune.frame_max
  pub heartbeat : IsU32 p.tune.heartbeat
  pub connection_properties : IsProperties p.connection_properties

module _ (sasl_data : Option Bytes) where
  unfoldable pub authentication_answers : ℕ → ℕ → List IncomingFrame
  authentication_answers zero cid =
      answer sasl_authenticate_response_command
        (record { response_code = ResponseCode.ok; sasl_opaque_data = sasl_data }) (some cid)
      ∷ []
  authentication_answers (suc n) cid =
      answer sasl_authenticate_response_command
        (record { response_code = ResponseCode.sasl_challenge; sasl_opaque_data = sasl_data })
        (some cid)
      ∷ authentication_answers n (cid_after cid)

unfoldable pub authentication_requests : SaslAuthenticateRequest → ℕ → ℕ → List Bytes
authentication_requests req zero cid = request_frame sasl_authenticate_request_command req cid ∷ []
authentication_requests req (suc n) cid =
    request_frame sasl_authenticate_request_command req cid
    ∷ authentication_requests req n (cid_after cid)

unfoldable pub last_cid : ℕ → ℕ → ℕ
last_cid zero cid = cid_after cid
last_cid (suc n) cid = last_cid n (cid_after cid)

module _ (req : SaslAuthenticateRequest) (sasl_data : Option Bytes) (fits : IsShortOpt sasl_data)
    (frs : List IncomingFrame) where
  authenticates :
      (n fuel cid : ℕ) (out : List Bytes)
      → n < fuel
      → authenticate scripted fuel req cid
          (record { inbox = authentication_answers sasl_data n cid ++ frs; outbox = out })
        ≡ some (
          ok (last_cid n cid),
          record { inbox = frs; outbox = out ++ authentication_requests req n cid },
        )
  unfolding authenticate authentication_answers authentication_requests last_cid returns
      check_outbound_frame_size
  authenticates n zero cid out h = absurd (omega arith)
  authenticates zero (suc fuel) cid out h =
      starts _ _ _ _ tt (sends sasl_authenticate_request_command req cid 0 _ refl)
      ∙ starts _ _ _ _ _ (
          receives sasl_authenticate_response_command _ cid frs _
            (RoundTrip.Carries-sasl_authenticate_response _ (omega arith) fits))
  authenticates (suc n) (suc fuel) cid out h =
      starts _ _ _ _ tt (sends sasl_authenticate_request_command req cid 0 _ refl)
      ∙ starts _ _ _ _ _ (
          receives sasl_authenticate_response_command _ cid _ _
            (RoundTrip.Carries-sasl_authenticate_response _ (omega arith) fits))
      ∙ authenticates n fuel (cid_after cid) _ (omega arith)
      ∙ ap (λ o. some (ok (last_cid n (cid_after cid)), record { inbox = frs; outbox = o }))
          (append_assoc out _ _)

-- The frames of the peer.
unfoldable pub answers : Peer → List IncomingFrame
answers p =
    answer peer_properties_response_command
      (record { response_code = ResponseCode.ok; properties = p.properties }) (some 1)
    ∷ answer sasl_handshake_response_command
        (record { response_code = ResponseCode.ok; mechanisms = p.mechanisms }) (some 2)
    ∷ (authentication_answers p.sasl_data p.challenges 3
        ++ (answer tune_command p.tune none
            ∷ answer open_response_command
                (record {
                  response_code = ResponseCode.ok;
                  connection_properties = p.connection_properties;
                })
                (some (last_cid p.challenges 3))
            ∷ []))

-- What the two sides settle on.
abbrev pub settled : ConnectionConfig → Peer → HandshakeResult
settled cfg p = record {
  negotiated_frame_max = negotiate_frame_max cfg.requested_frame_max_bytes p.tune.frame_max;
  negotiated_heartbeat = negotiate_heartbeat cfg.requested_heartbeat_seconds p.tune.heartbeat;
  server_properties = p.properties;
  connection_properties = p.connection_properties;
}

abbrev pub open_frame : ConnectionConfig → Peer → Bytes
open_frame cfg p =
    request_frame open_request_command (record { virtual_host = cfg.virtual_host })
      (last_cid p.challenges 3)

-- The frames of the client, in order.
unfoldable pub requests : ConnectionConfig → Peer → List Bytes
requests cfg p =
    request_frame peer_properties_request_command (record { properties = client_properties cfg }) 1
    ∷ request_frame sasl_handshake_request_command sasl_handshake_request 2
    ∷ ((authentication_requests
            (record { mechanism = text "PLAIN"; sasl_opaque_data = plain_payload cfg }) p.challenges
            3
          ++ oneway_frame tune_command (record {
            frame_max = (settled cfg p).negotiated_frame_max;
            heartbeat = (settled cfg p).negotiated_heartbeat;
          })
            ∷ [])
        ++ open_frame cfg p ∷ [])

-- Against a peer that accepts every step, offers PLAIN and asks for the credentials again any number
-- of times below the fuel, and if the Open frame fits the negotiated FrameMax, the handshake ends and
-- succeeds: it has read all that the peer sent, has sent the frames of the five steps and no other, in
-- order, with ids that count up from 1, and returns the settled limits and the properties received.
pub run_handshake_completes :
    (cfg : ConnectionConfig) (p : Peer) (fuel : ℕ)
    → IsGood p
    → p.challenges < fuel
    → check_outbound_frame_size (length (open_frame cfg p) - 4) (settled cfg p).negotiated_frame_max
      ≡ ok tt
    → run_handshake scripted fuel cfg (record { inbox = answers p; outbox = [] })
      ≡ some (ok (settled cfg p), record { inbox = []; outbox = requests cfg p })
unfolding run_handshake answers requests returns stops_if check_outbound_frame_size
run_handshake_completes cfg p fuel g more h =
    starts _ _ _ _ tt (sends peer_properties_request_command _ 1 0 _ refl)
    ∙ starts _ _ _ _ _ (
        receives peer_properties_response_command _ 1 _ _
          (RoundTrip.Carries-peer_properties_response _ (omega arith) g.properties))
    ∙ starts _ _ _ _ tt refl
    ∙ starts _ _ _ _ tt (sends sasl_handshake_request_command _ 2 0 _ refl)
    ∙ starts _ _ _ _ _ (
        receives sasl_handshake_response_command _ 2 _ _
          (RoundTrip.Carries-sasl_handshake_response _ (omega arith) g.few g.mechanisms))
    ∙ starts _ _ _ _ tt refl
    ∙ starts _ _ _ _ tt (passes _ _ _ g.offers_plain)
    ∙ starts _ _ _ _ _ (authenticates _ p.sasl_data g.sasl_data _ p.challenges fuel 3 _ more)
    ∙ starts _ _ _ _ _ (
        receives_oneway tune_command p.tune _ _
          (RoundTrip.Carries-tune p.tune g.frame_max g.heartbeat))
    ∙ starts _ _ _ _ tt (sends_oneway tune_command _ _)
    ∙ starts _ _ _ _ tt (sends open_request_command _ (last_cid p.challenges 3) _ _ h)
    ∙ starts _ _ _ _ _ (
        receives open_response_command _ (last_cid p.challenges 3) _ _
          (RoundTrip.Carries-open_response _ (omega arith) g.connection_properties))
    ∙ starts _ _ _ _ tt refl

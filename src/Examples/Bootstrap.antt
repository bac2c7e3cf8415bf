-- ===== src/Examples/Bootstrap.antt =====
-- The handshake at concrete inputs.
use rabbitmq_ai.Common.{
  ℕ, ◌≡◌, ◌≤◌, ◌⊎◌, ◌↔◌, inr, refl, some, none, [], ◌∷◌, ◌++◌, text, arith, if◌then◌else◌, ◌==◌,
  length, ◌-◌, same_bytes,
}
use rabbitmq_ai.Result.{ok, err}
use rabbitmq_ai.Errors.{Kind, stream_error}
use rabbitmq_ai.Utf8.{is_valid_utf8, utf8_loop, utf8_step}
use rabbitmq_ai.Codec.Strings.{IsText}
use rabbitmq_ai.Common.Int.{to_unsigned, to_signed}
use rabbitmq_ai.Buffer.{write_raw, write_byte}
use rabbitmq_ai.Codec.{write_u16, write_u32, write_i16, write_string}
use rabbitmq_ai.Commands.Connection.{encode_open_request}
use rabbitmq_ai.Frame.{IncomingFrame, encode_request_frame, write_body, check_outbound_frame_size}
use rabbitmq_ai.Frame.ResponseCode
use rabbitmq_ai.Config.{default_config}
use rabbitmq_ai.Commands.Handshake.{
  peer_properties_request_command, peer_properties_response_command, sasl_handshake_request,
  sasl_handshake_request_command, sasl_handshake_response_command,
}
use rabbitmq_ai.Handshake.{
  negotiate_frame_max, negotiate_heartbeat, unexpected_key, id_mismatch, recv_response,
  run_handshake, plain_supported, offered, request_frame, client_properties,
}
use rabbitmq_ai.Handshake.Script.{Script, scripted, read_script, answer}
use rabbitmq_ai.Handshake.Negotiation.{negotiate_frame_max_lem, negotiate_heartbeat_lem}
use rabbitmq_ai.Handshake.Completes.{
  Peer, IsGood, answers, requests, settled, open_frame, last_cid, run_handshake_completes,
}
use rabbitmq_ai.Handshake.Refuses.{recv_response-refuses, run_handshake_no_plain}

abbrev requested : ℕ
requested = 100

abbrev tuned : ℕ
tuned = 60

negotiate_frame_max_lem_example :
    ((negotiate_frame_max requested tuned ≡ 0) ↔ ((requested ≡ 0) × (tuned ≡ 0)))
    × ((requested ≡ 0) ⊎ (negotiate_frame_max requested tuned ≤ requested))
    × ((tuned ≡ 0) ⊎ (negotiate_frame_max requested tuned ≤ tuned))
    × ((negotiate_frame_max requested tuned ≡ requested)
        ⊎ (negotiate_frame_max requested tuned ≡ tuned))
negotiate_frame_max_lem_example = negotiate_frame_max_lem requested tuned

negotiate_heartbeat_lem_example :
    (negotiate_heartbeat requested tuned ≤ tuned)
    × (negotiate_heartbeat requested tuned ≤ requested)
    × ((negotiate_heartbeat requested tuned ≡ requested)
        ⊎ (negotiate_heartbeat requested tuned ≡ tuned))
negotiate_heartbeat_lem_example = negotiate_heartbeat_lem requested tuned (omega arith)

plain_name-IsText : IsText (text "PLAIN")
unfolding is_valid_utf8 utf8_loop utf8_step text
plain_name-IsText = record { short = omega arith; utf8 = refl }

-- A peer that asks for the credentials twice.
abbrev pub broker : Peer
broker = record {
  properties = [];
  mechanisms = text "PLAIN" ∷ [];
  challenges = 1;
  sasl_data = none;
  tune = record { frame_max = 0; heartbeat = 30 };
  connection_properties = [];
}

pub broker-IsGood : IsGood broker
unfolding plain_supported same_bytes text
broker-IsGood = record {
  properties = (omega arith, tt);
  mechanisms = (plain_name-IsText, tt);
  few = omega arith;
  offers_plain = refl;
  sasl_data = tt;
  frame_max = omega arith;
  heartbeat = omega arith;
  connection_properties = (omega arith, tt);
}

pub open_frame_fits :
    check_outbound_frame_size
      (length (open_frame default_config broker) - 4)
      (settled default_config broker).negotiated_frame_max
    ≡ ok tt
unfolding check_outbound_frame_size negotiate_frame_max encode_request_frame write_body write_raw
    write_u16 write_u32 write_byte encode_open_request write_string write_i16 to_unsigned to_signed
    text last_cid
open_frame_fits = refl

run_handshake_completes_example :
    run_handshake scripted 5 default_config (record { inbox = answers broker; outbox = [] })
    ≡ some (
      ok (settled default_config broker),
      record { inbox = []; outbox = requests default_config broker },
    )
run_handshake_completes_example =
    run_handshake_completes default_config broker 5 broker-IsGood (omega arith) open_frame_fits

run_handshake_no_plain_example :
    run_handshake scripted 5 default_config (record {
      inbox =
          answer peer_properties_response_command
            (record { response_code = ResponseCode.ok; properties = [] })
            (some 1)
          ∷ answer sasl_handshake_response_command
              (record { response_code = ResponseCode.ok; mechanisms = [] })
              (some 2)
          ∷ [];
      outbox = [];
    })
    ≡ some (
      err (
          stream_error Kind.sasl_mechanism_not_supported
            (text "server does not offer PLAIN; offered: " ++ offered [])),
      record {
        inbox = [];
        outbox =
            request_frame peer_properties_request_command
              (record { properties = client_properties default_config })
              1
            ∷ request_frame sasl_handshake_request_command sasl_handshake_request 2
            ∷ [];
      },
    )
run_handshake_no_plain_example =
    run_handshake_no_plain default_config 5 [] [] [] (omega arith, tt) (omega arith) tt
      (unfold plain_supported in refl)

-- The answer to request 7, where that of request 8 is awaited.
abbrev late : IncomingFrame
late =
    answer peer_properties_response_command
      (record { response_code = ResponseCode.ok; properties = [] }) (some 7)

abbrev waiting : Script
waiting = record { inbox = late ∷ []; outbox = [] }

recv_response-refuses_example :
    recv_response scripted peer_properties_response_command 8 waiting
    ≡ some (
      err (
          if late.key == peer_properties_response_command.key then id_mismatch else unexpected_key),
      record waiting { inbox = [] },
    )
unfolding read_script
recv_response-refuses_example =
    recv_response-refuses scripted peer_properties_response_command 8 waiting
      (record waiting { inbox = [] }) late refl (omega arith) (inr (λ e. ground arith))

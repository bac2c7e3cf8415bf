-- ===== src/Examples/Sockets.antt =====
-- The socket at concrete inputs.
use rabbitmq_ai.Common.{
  inl, ℕ, ◌+◌, ◌<◌, ◌^◌, ◌≡◌, true, refl, none, some, [], ◌∷◌, ◌++◌, All, Bytes, text, length,
  arith,
}
use rabbitmq_ai.Result.{ok}
use rabbitmq_ai.Config.{default_config}
use rabbitmq_ai.Frame.{IncomingFrame}
use rabbitmq_ai.Frame.Key.{is_response, response_of}
use rabbitmq_ai.Common.Int.{to_unsigned, to_signed}
use rabbitmq_ai.Buffer.{write_byte, write_raw}
use rabbitmq_ai.Codec.{
  write_array_prefix, write_bytes, write_string, write_i16, write_i32, write_u16, write_u32,
}
use rabbitmq_ai.Commands.{encode_kv_array, encode_kv_loop, encode_string_loop}
use rabbitmq_ai.Commands.Handshake.{
  encode_peer_properties_response, encode_sasl_handshake_response,
  encode_sasl_authenticate_response,
}
use rabbitmq_ai.Commands.Connection.{encode_tune, encode_open_response}
use rabbitmq_ai.Socket.{
  return_timeout, write_loop, after_send, write_all, read_exact, read_frame, tcp,
}
use rabbitmq_ai.Socket.Safety.{Wrote, write_all-Wrote, ReadOut, read_exact-ReadOut}
use rabbitmq_ai.Socket.Progress.{IsAfter, write_all-ends, read_exact-ends}
use rabbitmq_ai.Socket.Frames.{bytes_of, IsSendable, read_frame-bytes_of}
use rabbitmq_ai.Socket.Refines.{joined, stream_of, IsImage, run_handshake-Refines}
use rabbitmq_ai.Socket.Completes.{tcp_handshake_completes}
use rabbitmq_ai.Transport.Simulates.{Related}
use rabbitmq_ai.Handshake.{run_handshake}
use rabbitmq_ai.Handshake.Script.{scripted}
use rabbitmq_ai.Handshake.Completes.{answers, requests, settled, authentication_answers, last_cid}
use rabbitmq_ai.Examples.Bootstrap.{broker, broker-IsGood, open_frame_fits}
use rabbitmq_ai.Client.{StreamClient}
use rabbitmq_ai.Client.Connection.{new_client}
use rabbitmq_ai.Client.Reader.{read_rounds, deliveries, HasDelivered, read_rounds-deliver}
use rabbitmq_ai.Examples.Links.{Link, kernel, stream, healthy}

abbrev link : Link
link = record { inbox = 1 ∷ 2 ∷ 3 ∷ []; outbox = 9 ∷ []; interrupts = 2 }

write_all-Wrote_example :
    Wrote kernel stream (7 ∷ 8 ∷ []) link (write_all kernel 2 (7 ∷ 8 ∷ []) link)
write_all-Wrote_example = write_all-Wrote kernel stream 2 (7 ∷ 8 ∷ []) link

write_all-ends_example :
    (w' : Link) × (write_all kernel 2 (7 ∷ 8 ∷ []) link ≡ some (ok tt, w'))
    × IsAfter kernel stream healthy link (7 ∷ 8 ∷ []) (1 ∷ 2 ∷ 3 ∷ []) w'
write_all-ends_example = write_all-ends kernel stream healthy 2 (7 ∷ 8 ∷ []) link (omega arith)

read_exact-ReadOut_example :
    ReadOut kernel stream 2 [] link (read_exact kernel 2 2 return_timeout link)
read_exact-ReadOut_example = read_exact-ReadOut kernel stream 2 2 return_timeout link

read_exact-ends_example :
    (w' : Link) × (read_exact kernel 2 2 return_timeout link ≡ some (ok (1 ∷ 2 ∷ []), w'))
    × IsAfter kernel stream healthy link [] (3 ∷ []) w'
read_exact-ends_example =
    read_exact-ends kernel stream healthy 2 return_timeout (1 ∷ 2 ∷ []) (3 ∷ []) link (omega arith)
      refl

-- The code itself, on that link.
abbrev all_written : Link
all_written = record { inbox = 1 ∷ 2 ∷ 3 ∷ []; outbox = 9 ∷ 7 ∷ 8 ∷ []; interrupts = 0 }

write_all_run : write_all kernel 2 (7 ∷ 8 ∷ []) link ≡ some (ok tt, all_written)
unfolding write_all write_loop after_send
write_all_run = refl

-- A heartbeat, as the broker sends it.
abbrev beat : IncomingFrame
beat = record { key = 0x0017; version = 1; body = []; correlation_id = none }

beat-IsSendable : IsSendable beat
unfolding is_response
beat-IsSendable = record {
  key = omega arith;
  version = omega arith;
  fits = omega arith;
  kind = refl;
}

abbrev beat_link : Link
beat_link = record { inbox = bytes_of beat ++ 5 ∷ []; outbox = []; interrupts = 1 }

read_frame-bytes_of_example :
    (w' : Link) × (read_frame kernel 1 beat_link ≡ some (ok beat, w'))
    × IsAfter kernel stream healthy beat_link [] (5 ∷ []) w'
read_frame-bytes_of_example =
    read_frame-bytes_of kernel stream healthy 1 beat (5 ∷ []) beat_link beat-IsSendable
      (omega arith) refl

answer-IsSendable :
    (key version : ℕ) (body : Bytes) (cid : ℕ)
    → key < 2 ^ 16
    → version < 2 ^ 16
    → 8 + length body < 2 ^ 32
    → is_response key ≡ true
    → cid < 2 ^ 32
    → IsSendable (record { key = key; version = version; body = body; correlation_id = some cid })
answer-IsSendable key version body cid k v b r c = record {
  key = k;
  version = v;
  fits = b;
  kind = (r, c);
}

pub broker-IsSendable : All IsSendable (answers broker)
unfolding answers authentication_answers is_response response_of last_cid
    encode_peer_properties_response encode_kv_array encode_kv_loop encode_sasl_handshake_response
    encode_string_loop encode_sasl_authenticate_response encode_tune encode_open_response
    write_array_prefix write_bytes write_string write_i16 write_i32 write_u16 write_u32 write_byte
    write_raw to_unsigned to_signed text
broker-IsSendable = (
  answer-IsSendable _ _ _ _ (omega arith) (omega arith) (omega arith) refl (omega arith),
  (
    answer-IsSendable _ _ _ _ (omega arith) (omega arith) (omega arith) refl (omega arith),
    (
      answer-IsSendable _ _ _ _ (omega arith) (omega arith) (omega arith) refl (omega arith),
      (
        answer-IsSendable _ _ _ _ (omega arith) (omega arith) (omega arith) refl (omega arith),
        (
          record { key = omega arith; version = omega arith; fits = omega arith; kind = refl },
          (
            answer-IsSendable _ _ _ _ (omega arith) (omega arith) (omega arith) refl (omega arith),
            tt,
          ),
        ),
      ),
    ),
  ),
)

-- A link from which the broker's frames come, with two interrupted calls to come.
abbrev pub broker_link : Link
broker_link = record { inbox = stream_of (answers broker); outbox = []; interrupts = 2 }

run_handshake-Refines_example :
    Related
      (IsImage kernel stream healthy 2 [])
      (run_handshake scripted 5 default_config (record { inbox = answers broker; outbox = [] }))
      (run_handshake (tcp kernel 2) 5 default_config broker_link)
run_handshake-Refines_example =
    run_handshake-Refines kernel stream healthy 2 [] 5 default_config
      (record { inbox = answers broker; outbox = [] }) broker_link
      (record {
        inbound = refl;
        outbound = refl;
        delays = omega arith;
        sendable = broker-IsSendable;
      })

tcp_handshake_completes_example :
    (w' : Link) × (run_handshake (tcp kernel 2) 5 default_config broker_link
      ≡ some (ok (settled default_config broker), w'))
    × (w'.outbox ≡ [] ++ joined (requests default_config broker))
    × (w'.inbox ≡ [])
tcp_handshake_completes_example =
    tcp_handshake_completes kernel stream healthy 2 5 default_config broker broker_link
      broker-IsGood broker-IsSendable (omega arith) open_frame_fits (omega arith) refl

-- Two heartbeats, and a byte of what follows.
abbrev beats_link : Link
beats_link = record { inbox = stream_of (beat ∷ beat ∷ []) ++ 5 ∷ []; outbox = []; interrupts = 1 }

abbrev reading : StreamClient Link
reading = new_client default_config beats_link

read_rounds-deliver_example :
    (c' : StreamClient Link) × (read_rounds (tcp kernel 1) (40 ∷ 50 ∷ []) reading ≡ some c')
    × HasDelivered kernel stream healthy 1 reading
        (deliveries (40 ∷ 50 ∷ []) (beat ∷ beat ∷ []))
        (5 ∷ [])
        c'
unfolding new_client
read_rounds-deliver_example =
    read_rounds-deliver kernel stream healthy 1 (40 ∷ 50 ∷ []) (beat ∷ beat ∷ []) (5 ∷ []) reading
      refl refl (beat-IsSendable, (beat-IsSendable, tt)) (inl refl, (inl refl, tt)) (omega arith)
      refl

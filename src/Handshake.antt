-- ===== src/Handshake.antt =====
-- src/handshake.cpp, include/stream/handshake.hpp: the five steps of the bootstrap, over a transport.
-- Log lines are left out. The authentication loop has no bound in the code: it runs on fuel.
pub mod Negotiation
pub mod Script
pub mod Completes
pub mod Refuses
pub mod Simulates
use rabbitmq_ai.Common.{
  ℕ, zero, suc, ◌+◌, ◌-◌, ◌%◌, ◌^◌, Bool, true, false, not, ◌&&◌, ◌||◌, Option, none, some, List,
  [], ◌∷◌, ◌++◌, min, Bytes, text, length, same_bytes, ◌==◌, if◌then◌else◌,
}
use rabbitmq_ai.Errors.{Kind, StreamError, stream_error, stream_error_code}
use rabbitmq_ai.Result.{ok, err}
use rabbitmq_ai.Buffer.{new_writer, new_reader}
use rabbitmq_ai.Frame.{
  IncomingFrame, encode_request_frame, encode_oneway_frame, check_outbound_frame_size,
}
use rabbitmq_ai.Frame.ResponseCode
use rabbitmq_ai.Config.{ConnectionConfig}
use rabbitmq_ai.Transport.{Transport, Io, returns, from, runs_out, ◌>>=◌, ◌>>◌, stops_if}
use rabbitmq_ai.Commands.{Command, KeyValue}
use rabbitmq_ai.Commands.Handshake.{
  PeerPropertiesRequest, PeerPropertiesResponse, SaslHandshakeRequest, sasl_handshake_request,
  SaslHandshakeResponse, SaslAuthenticateRequest, SaslAuthenticateResponse,
  peer_properties_request_command, peer_properties_response_command, sasl_handshake_request_command,
  sasl_handshake_response_command, sasl_authenticate_request_command,
  sasl_authenticate_response_command,
}
use rabbitmq_ai.Commands.Connection.{
  Tune, OpenRequest, OpenResponse, tune_command, open_request_command, open_response_command,
}

pub record HandshakeResult : Type 0 where
  pub negotiated_frame_max : ℕ
  pub negotiated_heartbeat : ℕ
  pub server_properties : List KeyValue
  pub connection_properties : List KeyValue

-- The frame that carries `c`.
abbrev pub request_frame : {Cmd : Type 0} → Command Cmd → Cmd → ℕ → Bytes
request_frame cmd c cid =
    encode_request_frame cmd.key cmd.version cid (cmd.encode_body c new_writer).data_

abbrev pub oneway_frame : {Cmd : Type 0} → Command Cmd → Cmd → Bytes
oneway_frame cmd c = encode_oneway_frame cmd.key cmd.version (cmd.encode_body c new_writer).data_

unfoldable pub is_other_id : Option ℕ → ℕ → Bool
is_other_id none expected = true
is_other_id (some cid) expected = not (cid == expected)

abbrev pub unexpected_key : StreamError
unexpected_key = stream_error Kind.protocol_violation (text "unexpected frame key during handshake")

abbrev pub id_mismatch : StreamError
id_mismatch = stream_error Kind.protocol_violation (text "correlation id mismatch")

module _ {W : Type 0} (t : Transport W) {Cmd : Type 0} (cmd : Command Cmd) where
  unfoldable pub send_request : Cmd → ℕ → ℕ → Io W (Unit {0})
  send_request c cid frame_max = do
    from (check_outbound_frame_size (length (request_frame cmd c cid) - 4) frame_max)
    t.write_all (request_frame cmd c cid)

  unfoldable pub send_oneway : Cmd → ℕ → Io W (Unit {0})
  send_oneway c frame_max = do
    from (check_outbound_frame_size (length (oneway_frame cmd c) - 4) frame_max)
    t.write_all (oneway_frame cmd c)

  unfoldable pub recv_response : ℕ → Io W Cmd
  recv_response expected_cid = do
    fr ← t.read_frame
    stops_if (not (fr.key == cmd.key)) unexpected_key
    stops_if (not (expected_cid == 0) && is_other_id fr.correlation_id expected_cid) id_mismatch
    from (cmd.decode_body (new_reader fr.body)).0

  unfoldable pub recv_oneway : Io W Cmd
  recv_oneway = do
    fr ← t.read_frame
    stops_if (not (fr.key == cmd.key)) unexpected_key
    from (cmd.decode_body (new_reader fr.body)).0

unfoldable pub map_response_code : ℕ → Bytes → StreamError
map_response_code code context =
    if code == ResponseCode.authentication_failure
      || code == ResponseCode.sasl_authentication_failure_loopback
    then stream_error Kind.authentication_failed (text "authentication failed: " ++ context)
    else if code == ResponseCode.sasl_mechanism_not_supported
    then stream_error Kind.sasl_mechanism_not_supported
        (text "no supported SASL mechanism: " ++ context)
    else if code == ResponseCode.virtual_host_access_failure || code == ResponseCode.access_refused
    then stream_error Kind.virtual_host_access_denied
        (text "virtual host access denied: " ++ context)
    else stream_error_code Kind.server_error (text "server error " ++ context) code

-- `if (response_code != Ok) return err(map_response_code(response_code, context));`
abbrev pub require_ok : {W : Type 0} → ℕ → Bytes → Io W (Unit {0})
require_ok code context = stops_if (not (code == ResponseCode.ok)) (map_response_code code context)

abbrev pub cid_after : ℕ → ℕ
cid_after cid = (cid + 1) % 2 ^ 32

-- The properties that the client sends.
unfoldable pub client_properties : ConnectionConfig → List KeyValue
client_properties cfg =
    let fixed =
      (text "product", text "rabbitmq-stream-cpp-client")
      ∷ (text "version", text "0.1.0")
      ∷ (text "platform", text "C++17/POSIX")
      ∷ [] in
    if length cfg.connection_name == 0
    then fixed
    else fixed ++ (text "connection_name", cfg.connection_name) ∷ []

-- The search for "PLAIN", and the names that its error lists.
unfoldable pub plain_supported : List Bytes → Bool
plain_supported [] = false
plain_supported (m ∷ ms) = same_bytes m (text "PLAIN") || plain_supported ms

unfoldable pub offered : List Bytes → Bytes
offered [] = []
offered (m ∷ ms) = (m ++ text " ") ++ offered ms

-- "\0<user>\0<pass>"
unfoldable pub plain_payload : ConnectionConfig → Bytes
plain_payload cfg = (0 ∷ cfg.username) ++ (0 ∷ cfg.password)

unfoldable pub negotiate_frame_max : ℕ → ℕ → ℕ
negotiate_frame_max requested tuned =
    if not (requested == 0) then (if tuned == 0 then requested else min tuned requested) else tuned

unfoldable pub negotiate_heartbeat : ℕ → ℕ → ℕ
negotiate_heartbeat requested tuned = if not (requested == 0) then min tuned requested else tuned

module _ {W : Type 0} (t : Transport W) where
  -- `for (;;)` of step 3; the value is `cid` after the loop.
  unfoldable pub authenticate : ℕ → SaslAuthenticateRequest → ℕ → Io W ℕ
  authenticate zero sa_req cid = runs_out
  authenticate (suc fuel) sa_req cid =
      let again = authenticate fuel sa_req (cid_after cid) in
      do
        send_request t sasl_authenticate_request_command sa_req cid 0
        sa_resp ← recv_response t sasl_authenticate_response_command cid
        if sa_resp.response_code == ResponseCode.ok
            then returns (cid_after cid)
            else if sa_resp.response_code == ResponseCode.sasl_challenge
            then again
            else from (err (map_response_code sa_resp.response_code (text "SaslAuthenticate")))

  unfoldable pub run_handshake : ℕ → ConnectionConfig → Io W HandshakeResult
  run_handshake fuel cfg = do
    send_request t peer_properties_request_command (record { properties = client_properties cfg }) 1
        0
    pp_resp ← recv_response t peer_properties_response_command 1
    require_ok pp_resp.response_code (text "PeerProperties")
    send_request t sasl_handshake_request_command sasl_handshake_request 2 0
    sh_resp ← recv_response t sasl_handshake_response_command 2
    require_ok sh_resp.response_code (text "SaslHandshake")
    stops_if (not (plain_supported sh_resp.mechanisms)) (
        stream_error Kind.sasl_mechanism_not_supported
          (text "server does not offer PLAIN; offered: " ++ offered sh_resp.mechanisms))
    cid ←
        authenticate fuel
          (record { mechanism = text "PLAIN"; sasl_opaque_data = plain_payload cfg }) 3
    tune ← recv_oneway t tune_command
    let neg_fm = negotiate_frame_max cfg.requested_frame_max_bytes tune.frame_max
    let neg_hb = negotiate_heartbeat cfg.requested_heartbeat_seconds tune.heartbeat
    send_oneway t tune_command (record { frame_max = neg_fm; heartbeat = neg_hb }) 0
    send_request t open_request_command (record { virtual_host = cfg.virtual_host }) cid neg_fm
    open_resp ← recv_response t open_response_command cid
    require_ok open_resp.response_code (text "Open/" ++ cfg.virtual_host)
    returns (record {
      negotiated_frame_max = neg_fm;
      negotiated_heartbeat = neg_hb;
      server_properties = pp_resp.properties;
      connection_properties = open_resp.connection_properties;
    })

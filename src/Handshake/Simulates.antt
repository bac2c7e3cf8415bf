-- ===== src/Handshake/Simulates.antt =====
-- The bootstrap over two transports, one of which implements the other.
use rabbitmq_ai.Common.{ℕ, zero, suc}
use rabbitmq_ai.Transport.{Transport}
use rabbitmq_ai.Transport.Simulates.{
  Simulates, Simulates-from, Simulates-returns, Simulates-runs_out, Simulates-if,
  Simulates-stops_if, Simulates-bind, Implements,
}
use rabbitmq_ai.Config.{ConnectionConfig}
use rabbitmq_ai.Commands.{Command}
use rabbitmq_ai.Commands.Handshake.{SaslAuthenticateRequest}
use rabbitmq_ai.Handshake.{
  send_request, send_oneway, recv_response, recv_oneway, authenticate, run_handshake,
}

module _ {W W' : Type 0} (R : W → W' → Type 0) (t : Transport W) (u : Transport W')
    (i : Implements R t u) where
  module _ {Cmd : Type 0} (cmd : Command Cmd) where
    send_request-Simulates :
        (c : Cmd) (cid frame_max : ℕ)
        → Simulates R (send_request t cmd c cid frame_max) (send_request u cmd c cid frame_max)
    unfolding send_request
    send_request-Simulates c cid frame_max =
        Simulates-bind R (Simulates-from R _) λ _. i.write_all _

    send_oneway-Simulates :
        (c : Cmd) (frame_max : ℕ)
        → Simulates R (send_oneway t cmd c frame_max) (send_oneway u cmd c frame_max)
    unfolding send_oneway
    send_oneway-Simulates c frame_max = Simulates-bind R (Simulates-from R _) λ _. i.write_all _

    recv_response-Simulates :
        (expected_cid : ℕ)
        → Simulates R (recv_response t cmd expected_cid) (recv_response u cmd expected_cid)
    unfolding recv_response
    recv_response-Simulates expected_cid = Simulates-bind R i.read_frame λ fr.
        Simulates-bind R (Simulates-stops_if R _ _)
          λ _. Simulates-bind R (Simulates-stops_if R _ _) λ _. Simulates-from R _

    recv_oneway-Simulates : Simulates R (recv_oneway t cmd) (recv_oneway u cmd)
    unfolding recv_oneway
    recv_oneway-Simulates =
        Simulates-bind R i.read_frame
          λ fr. Simulates-bind R (Simulates-stops_if R _ _) λ _. Simulates-from R _

  authenticate-Simulates :
      (fuel : ℕ) (sa_req : SaslAuthenticateRequest) (cid : ℕ)
      → Simulates R (authenticate t fuel sa_req cid) (authenticate u fuel sa_req cid)
  unfolding authenticate
  authenticate-Simulates zero sa_req cid = Simulates-runs_out R _
  authenticate-Simulates (suc fuel) sa_req cid =
      Simulates-bind R (send_request-Simulates _ sa_req cid 0) λ _.
        Simulates-bind R (recv_response-Simulates _ cid) λ resp.
          Simulates-if R _ _ _ _ _ (Simulates-returns R _)
            (Simulates-if R _ _ _ _ _ (authenticate-Simulates fuel sa_req _) (Simulates-from R _))

  -- Where a transport implements another, the handshake over it does and returns what the handshake
  -- over the other does and returns, at every step, wherever that one does not run out of fuel.
  pub run_handshake-Simulates :
      (fuel : ℕ) (cfg : ConnectionConfig)
      → Simulates R (run_handshake t fuel cfg) (run_handshake u fuel cfg)
  unfolding run_handshake
  run_handshake-Simulates fuel cfg = Simulates-bind R (send_request-Simulates _ _ _ _) λ _.
      Simulates-bind R (recv_response-Simulates _ _) λ pp.
        Simulates-bind R (Simulates-stops_if R _ _) λ _.
          Simulates-bind R (send_request-Simulates _ _ _ _) λ _.
            Simulates-bind R (recv_response-Simulates _ _) λ sh.
              Simulates-bind R (Simulates-stops_if R _ _) λ _.
                Simulates-bind R (Simulates-stops_if R _ _) λ _.
                  Simulates-bind R (authenticate-Simulates fuel _ _) λ cid.
                    Simulates-bind R (recv_oneway-Simulates _) λ tune.
                      Simulates-bind R (send_oneway-Simulates _ _ _) λ _.
                        Simulates-bind R (send_request-Simulates _ _ _ _) λ _.
                          Simulates-bind R (recv_response-Simulates _ _) λ op.
                            Simulates-bind R (Simulates-stops_if R _ _) λ _. Simulates-returns R _

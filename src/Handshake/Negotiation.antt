-- ===== src/Handshake/Negotiation.antt =====
-- What the Tune exchange settles on.
use rabbitmq_ai.Common.{ℕ, ◌≡◌, ◌≤◌, ◌<◌, ◌⊎◌, ◌↔◌, arith}
use rabbitmq_ai.Handshake.{negotiate_frame_max, negotiate_heartbeat}

-- The negotiated FrameMax, where 0 means no limit: it is unlimited exactly when neither side sets a
-- limit, it is never above a limit that one side sets, and it is one of the two values.
pub negotiate_frame_max_lem :
    (requested tuned : ℕ)
    → let fm = negotiate_frame_max requested tuned in
      ((fm ≡ 0) ↔ ((requested ≡ 0) × (tuned ≡ 0)))
      × ((requested ≡ 0) ⊎ (fm ≤ requested))
      × ((tuned ≡ 0) ⊎ (fm ≤ tuned))
      × ((fm ≡ requested) ⊎ (fm ≡ tuned))
unfolding negotiate_frame_max
negotiate_frame_max_lem requested tuned = ground arith

-- For a client that asks for a heartbeat, the negotiated one is the shorter of its own and the server's:
-- it is never longer than either, and it is one of the two. So a server that disables heartbeats with 0
-- disables them.
pub negotiate_heartbeat_lem :
    (requested tuned : ℕ)
    → 0 < requested
    → let hb = negotiate_heartbeat requested tuned in
      (hb ≤ tuned) × (hb ≤ requested) × ((hb ≡ requested) ⊎ (hb ≡ tuned))
unfolding negotiate_heartbeat
negotiate_heartbeat_lem requested tuned h = ground arith

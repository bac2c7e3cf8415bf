-- ===== src/Client/Connection/Skeleton.antt =====
-- The part of a client that its life is about, and the operations that leave it alone.
use rabbitmq_ai.Common.{ℕ, ◌≡◌, Bool, List, Bytes, inl, inr, Option-cases, Bool-cases}
use rabbitmq_ai.Config.{ConnectionConfig}
use rabbitmq_ai.Transport.{Transport, Io}
use rabbitmq_ai.Transport.Simulates.{Implements}
use rabbitmq_ai.Transport.Preserves.{
  Keeps, Preserves, Preserves-from, Preserves-bind, Same, Simulates-Same, Preserves-Same,
}
use rabbitmq_ai.Handshake.{run_handshake}
use rabbitmq_ai.Handshake.Simulates.{run_handshake-Simulates}
use rabbitmq_ai.Dispatcher.Steps.{Operation, run}
use rabbitmq_ai.Socket.{Socket}
use rabbitmq_ai.Socket.Connect.{FdCall, Host, lifted, on_host}
use rabbitmq_ai.Client.Lifecycle.{store_offset}
use rabbitmq_ai.Client.{
  require_open, ConnectionState, Thread, UnexpectedClose, StreamClient, on_world, writes, sent,
  value_of, is_in, waits, transmit, send_and_wait,
}

pub record Skeleton : Type 0 where
  pub state : ConnectionState
  pub notified : List (ℕ × UnexpectedClose)
  pub fired : Bool
  pub sock : Socket
  pub log : List FdCall
  pub stop_io : Bool
  pub io_thread : Thread
  pub heartbeat_thread : Thread

abbrev pub skeleton : {W : Type 0} → StreamClient (Host W) → Skeleton
skeleton c = record {
  state = c.state_;
  notified = c.notified;
  fired = c.unexpected_fired_;
  sock = c.sock_;
  log = c.world_.log;
  stop_io = c.stop_io_;
  io_thread = c.io_thread_;
  heartbeat_thread = c.heartbeat_thread_;
}

module _ {W : Type 0} where
  abbrev pub HasLog : List FdCall → Host W → Type 0
  HasLog l h = h.log ≡ l

  abbrev pub HasSkeleton : Skeleton → StreamClient (Host W) → Type 0
  HasSkeleton s c = skeleton c ≡ s

  lifted-Preserves : {A : Type 0} (l : List FdCall) (m : Io W A) → Preserves (HasLog l) (lifted m)
  unfolding lifted
  lifted-Preserves l m = record {
    at = λ h p. elim (Option-cases (m h.world)) [
      | inl e ↦ rw (Keeps, e) tt
      | inr (x, e) ↦ rw (Keeps, e) p
    ];
  }

  on_host-Implements :
      (l : List FdCall) (t : Transport W) → Implements (Same (HasLog l)) (on_host t) (on_host t)
  on_host-Implements l t = record {
    write_all = λ bytes. Simulates-Same (HasLog l) _ (lifted-Preserves l (t.write_all bytes));
    read_frame = Simulates-Same (HasLog l) _ (lifted-Preserves l t.read_frame);
  }

  -- The handshake opens and closes no descriptor.
  pub run_handshake-Preserves :
      (l : List FdCall) (t : Transport W) (fuel : ℕ) (cfg : ConnectionConfig)
      → Preserves (HasLog l) (run_handshake (on_host t) fuel cfg)
  run_handshake-Preserves l t fuel cfg = Preserves-Same (HasLog l) _ (
      run_handshake-Simulates (Same (HasLog l)) (on_host t) (on_host t) (on_host-Implements l t)
        fuel cfg)

  pub writes-Preserves :
      (s : Skeleton) (t : Transport W) (frame : Bytes)
      → Preserves (HasSkeleton s) (writes (on_host t) frame)
  unfolding writes on_world lifted
  writes-Preserves s t frame = record {
    at = λ c p. elim (Option-cases (t.write_all frame c.world_.world)) [
      | inl e ↦ rw (Keeps, e) tt
      | inr (x, e) ↦ rw (Keeps, e) p
    ];
  }

  sent-Preserves :
      (s : Skeleton) (t : Transport (Host W)) (at : ℕ) → Preserves (HasSkeleton s) (sent t at)
  unfolding sent
  sent-Preserves s t at = record { at = λ c p. p }

  waits-Preserves :
      (s : Skeleton) (t : Transport (Host W)) (during : List Operation) (n : ℕ)
      → Preserves (HasSkeleton s) (waits t during n)
  unfolding waits
  waits-Preserves s t during n = record {
    at = λ c p. elim (Option-cases (value_of n (run c.dispatcher_ during).fulfilled)) [
      | inl e ↦ elim (Bool-cases (is_in n (run c.dispatcher_ during).broken)) [
        | inl b ↦ rw (Keeps, e, b) tt
        | inr b ↦ rw (Keeps, e, b) p
      ]
      | inr (v, e) ↦ rw (Keeps, e) p
    ];
  }

  transmit-Preserves :
      (s : Skeleton) (t : Transport W) (sent_at : ℕ) (during : List Operation) (frame : Bytes)
      (frame_max n : ℕ)
      → Preserves (HasSkeleton s) (transmit (on_host t) sent_at during frame frame_max n)
  unfolding transmit
  transmit-Preserves s t sent_at during frame frame_max n =
      Preserves-bind _ (Preserves-from _ _) λ _.
        Preserves-bind _ (sent-Preserves s (on_host t) sent_at) λ _.
          Preserves-bind _ (writes-Preserves s t frame) λ _. waits-Preserves s (on_host t) during n

  -- A request leaves the part alone.
  pub send_and_wait-Preserves :
      (s : Skeleton) (t : Transport W) (now sent_at : ℕ) (during : List Operation) (key version : ℕ)
      (body : Bytes)
      → Preserves (HasSkeleton s) (send_and_wait (on_host t) now sent_at during key version body)
  unfolding send_and_wait
  send_and_wait-Preserves s t now sent_at during key version body = record {
    at = λ c p. (transmit-Preserves s t sent_at during _ c.negotiated_frame_max_ _).at _ p;
  }

  require_open-Preserves :
      (s : Skeleton) (t : Transport (Host W)) → Preserves (HasSkeleton s) (require_open t)
  unfolding require_open
  require_open-Preserves s t = record { at = λ c p. p }

  -- And so does a StoreOffset.
  pub store_offset-Preserves :
      (s : Skeleton) (t : Transport W) (sent_at : ℕ) (reference stream : Bytes) (offset : ℕ)
      → Preserves (HasSkeleton s) (store_offset (on_host t) sent_at reference stream offset)
  unfolding store_offset
  store_offset-Preserves s t sent_at reference stream offset =
      Preserves-bind _ (require_open-Preserves s (on_host t)) λ _.
        Preserves-bind _ (Preserves-from _ _)
          λ _. Preserves-bind _ (sent-Preserves s (on_host t) sent_at) λ _. writes-Preserves s t _

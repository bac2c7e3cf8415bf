-- ===== src/Client/Connection/Reachable.antt =====
-- The invariant, in every state that the threads of a client can bring it to.
use rabbitmq_ai.Common.{
  ℕ, ◌≤◌, ◌≡◌, ◌≢◌, ◌⊎◌, Bool, true, false, refl, sym, subst, List, [], ◌++◌, Bytes, length, arith,
  Bool-cases, inl, inr,
}
use rabbitmq_ai.Result.{Result}
use rabbitmq_ai.Config.{ConnectionConfig}
use rabbitmq_ai.Transport.{Transport}
use rabbitmq_ai.Socket.{Socket}
use rabbitmq_ai.Socket.Connect.{ResolvedAddr, Calls, Host}
use rabbitmq_ai.Socket.Connect.Descriptors.{in_turn}
use rabbitmq_ai.Client.{ConnectionState, Thread, StreamClient}
use rabbitmq_ai.Client.Connection.{new_client, on_unexpected_close, begin_destroy, end_destroy}
use rabbitmq_ai.Client.Connection.Steps.{
  Action, connect_begins, requests, stores, listens, reads, reader_stops, beats, heartbeat_stops,
  close_begins, close_stops, close_ends, Life, Step, acts, establishes, starts_threads,
  destroy_begins, destroy_ends, Reach, starts, next,
}
use rabbitmq_ai.Client.Connection.Skeleton.{
  skeleton, send_and_wait-Preserves, store_offset-Preserves,
}
use rabbitmq_ai.Client.Connection.Invariant.{held, no_socket, is_before, IsSound, SoundClient}
use rabbitmq_ai.Client.Connection.Connecting.{
  begin_connect-SoundClient, establish-SoundClient, start_threads-SoundClient,
}
use rabbitmq_ai.Client.Connection.Rounds.{
  io_round-SoundClient, ended-SoundClient, heartbeat_ended-SoundClient,
}
use rabbitmq_ai.Client.Connection.Operations.{
  Keeps-at, Leaves-at, heartbeat_round-Leaves, begin_close-SoundClient, stop-SoundClient,
  end_close-SoundClient, begin_destroy-SoundClient, end_destroy-SoundClient,
}

module _ {W : Type 0} (os : Calls W) (resolver : Bytes → ℕ → W → Result (List ResolvedAddr) × W)
    (wire : Socket → Transport W) (fuel : ℕ) where
  Action-SoundClient :
      {c c' : StreamClient (Host W)} (b : Bool)
      → Action os resolver wire fuel c c'
      → SoundClient b c
      → SoundClient b c'
  unfolding on_unexpected_close
  Action-SoundClient {c} b (connect_begins r c' e) h =
      subst (λ q. SoundClient b q.1) e (begin_connect-SoundClient b c h)
  Action-SoundClient {c} b (requests now sent_at during key version body r c' e) h =
      subst (IsSound b)
        (sym (
          Keeps-at _ _ r c'
            ((send_and_wait-Preserves (skeleton c) (wire c.sock_) now sent_at during key version
                body).at
              c refl)
            e))
        h
  Action-SoundClient {c} b (stores sent_at reference stream offset r c' e) h =
      subst (IsSound b)
        (sym (
          Keeps-at _ _ r c'
            ((store_offset-Preserves (skeleton c) (wire c.sock_) sent_at reference stream offset).at
              c refl)
            e))
        h
  Action-SoundClient b (listens cb) h = h
  Action-SoundClient {c} b (reads now r i) h = io_round-SoundClient b now r c i h
  Action-SoundClient {c} b (reader_stops i s) h = ended-SoundClient b c h.starts i h.once h.balanced
  Action-SoundClient {c} b (beats now c' i e) h =
      subst (IsSound b) (sym (Leaves-at (skeleton c) _ c' (heartbeat_round-Leaves wire now c) e)) h
  Action-SoundClient {c} b (heartbeat_stops i s) h = heartbeat_ended-SoundClient b c i h
  Action-SoundClient {c} b (close_begins now r c' e) h =
      Keeps-at (SoundClient b) _ r c' (begin_close-SoundClient wire b now c h) e
  Action-SoundClient {c} b (close_stops e) h = stop-SoundClient b c e h
  Action-SoundClient {c} b (close_ends e j) h = end_close-SoundClient b c h

  abbrev SoundLife : Life W → Type 0
  SoundLife l = SoundClient l.is_starting l.client

  Step-SoundLife : {l l' : Life W} → Step os resolver wire fuel l l' → SoundLife l → SoundLife l'
  Step-SoundLife {l} (acts c' a) h = Action-SoundClient l.is_starting a h
  Step-SoundLife {l} (establishes r c' d e) h =
      establish-SoundClient os resolver wire fuel l.is_starting l.client r c' d e h
  Step-SoundLife {l} (starts_threads li lo e) h =
      start_threads-SoundClient li lo l.client (subst (λ b. SoundClient b l.client) e h)
  Step-SoundLife {l} (destroy_begins e) h =
      subst (λ b. SoundClient b (begin_destroy l.client)) (sym e)
        (begin_destroy-SoundClient l.client (subst (λ b. SoundClient b l.client) e h))
  Step-SoundLife {l} (destroy_ends e j) h =
      subst (λ b. SoundClient b (end_destroy l.client)) (sym e)
        (end_destroy-SoundClient l.client j (subst (λ b. SoundClient b l.client) e h))

  new_client-SoundClient :
      (cfg : ConnectionConfig) (w : W)
      → SoundClient false (new_client cfg (record { world = w; log = [] }))
  unfolding new_client
  new_client-SoundClient cfg w = record {
    once = omega arith;
    fresh = λ d. record { sock = refl; io_thread = refl; heartbeat_thread = refl; notified = refl };
    starts = λ s. absurd (cc);
    balanced = ([], refl);
    live = λ d. absurd (cc);
  }

  pub Reach-SoundLife :
      {cfg : ConnectionConfig} {w : W} {l : Life W}
      → Reach os resolver wire fuel cfg w l
      → SoundLife l
  Reach-SoundLife {cfg} {w} starts = new_client-SoundClient cfg w
  Reach-SoundLife (next r s) = Step-SoundLife s (Reach-SoundLife r)

  -- A client whose reader thread runs has been open.
  pub running-not_before :
      (l : Life W)
      → SoundLife l
      → l.client.io_thread_ ≡ Thread.running
      → is_before l.client.state_ ≡ false
  running-not_before l h i = elim (Bool-cases (is_before l.client.state_)) [
    | inl b ↦ absurd (let n = (h.fresh b).io_thread in cc)
    | inr b ↦ b
  ]

  module _ (cfg : ConnectionConfig) (w : W) (l : Life W)
      (r : Reach os resolver wire fuel cfg w l) where
    -- In every state that a client can be in, whatever its threads did and in whatever order, the
    -- unexpected-close callback has been called once at most.
    pub notified-once : length l.client.notified ≤ 1
    notified-once = elim (Bool-cases l.client.unexpected_fired_) [
      | inl e ↦ ground (arith, e, (Reach-SoundLife r).once)
      | inr e ↦ ground (arith, e, (Reach-SoundLife r).once)
    ]

    -- In every state that a client can be in, each descriptor that it opened was closed before it
    -- opened the next, but for the one that its socket holds, if it holds one: none leaks.
    pub no_descriptor_leaks :
        (fds : List ℕ) × (l.client.world_.log ≡ in_turn fds ++ held l.client.sock_)
    no_descriptor_leaks = (Reach-SoundLife r).balanced

    -- In every state that a client can be in, if it is open, its socket holds a descriptor, and its
    -- reader thread runs, but while `connect` is between publishing the open state and starting the
    -- reader.
    pub open_is_live :
        l.client.state_ ≡ ConnectionState.opened
        → ((l.is_starting ≡ true) ⊎ (l.client.io_thread_ ≡ Thread.running))
          × (l.client.sock_ ≢ no_socket)
    open_is_live = (Reach-SoundLife r).live

-- ===== src/Client/Connection/Rounds.antt =====
-- Each round of a thread of a client keeps the invariant.
use rabbitmq_ai.Common.{
  ℕ, ◌≡◌, ◌≢◌, refl, sym, subst, Bool, true, false, inl, inr, Option-cases, Bool-cases,
}
use rabbitmq_ai.Result.{Result, ok, err}
use rabbitmq_ai.Frame.{IncomingFrame}
use rabbitmq_ai.Commands.Connection.{close_request_command, heartbeat_command}
use rabbitmq_ai.Socket.Connect.{Host}
use rabbitmq_ai.Client.{ConnectionState, Thread, UnexpectedClose, StreamClient}
use rabbitmq_ai.Client.Loop.{
  is_timeout, is_dead, lost, closed_by_loop, notify_unexpected_close, leave, io_round,
  heartbeat_lost,
}
use rabbitmq_ai.Client.Notified.{IsOnce, notify-IsOnce}
use rabbitmq_ai.Client.Connection.Steps.{io_ended, turned}
use rabbitmq_ai.Client.Connection.Skeleton.{skeleton}
use rabbitmq_ai.Client.Connection.Invariant.{is_before, IsStarting, IsBalanced, SoundClient}

-- The reader leaves a client that is not open, and that has been.
closed_by_loop-other :
    (s : ConnectionState)
    → (closed_by_loop s ≢ ConnectionState.opened) × (is_before (closed_by_loop s) ≡ false)
closed_by_loop-other ConnectionState.disconnected = (λ e. cc, refl)
closed_by_loop-other ConnectionState.connecting = (λ e. cc, refl)
closed_by_loop-other ConnectionState.opened = (λ e. cc, refl)
closed_by_loop-other ConnectionState.closing = (λ e. cc, refl)
closed_by_loop-other ConnectionState.closed = (λ e. cc, refl)

no_thread : {t : Thread} {A : Type 0} → t ≡ Thread.not_joinable → t ≡ Thread.running → A
no_thread e i = absurd (cc)

module _ {W : Type 0} where
  notify-sock :
      (evt : UnexpectedClose) (c : StreamClient (Host W))
      → ((notify_unexpected_close evt c).sock_ ≡ c.sock_)
        × ((notify_unexpected_close evt c).world_ ≡ c.world_)
  unfolding notify_unexpected_close
  notify-sock evt c = elim (Bool-cases c.unexpected_fired_) [
    | inl e ↦ rw e (refl, refl)
    | inr e ↦ elim (Option-cases c.on_unexpected_close_) [
      | inl o ↦ rw (e, o) (refl, refl)
      | inr (cb, o) ↦ rw (e, o) (refl, refl)
    ]
  ]

  -- The reader runs, so `connect` is not about to start it.
  pub ended-SoundClient :
      (b : Bool) (c : StreamClient (Host W))
      → (b ≡ true → IsStarting (skeleton c))
      → c.io_thread_ ≡ Thread.running
      → IsOnce c
      → IsBalanced c.sock_ c.world_.log
      → SoundClient b (io_ended (leave c))
  unfolding leave
  ended-SoundClient b c starts i once balanced = record {
    once = once;
    fresh = λ d. absurd (let n = (closed_by_loop-other c.state_).1 in cc);
    starts = λ s. no_thread (starts s).io_thread i;
    balanced = balanced;
    live = λ d. absurd ((closed_by_loop-other c.state_).0 d);
  }

  notified-SoundClient :
      (b : Bool) (evt : UnexpectedClose) (c : StreamClient (Host W))
      → c.io_thread_ ≡ Thread.running
      → SoundClient b c
      → SoundClient b (io_ended (leave (notify_unexpected_close evt c)))
  unfolding leave
  notified-SoundClient b evt c i h =
      let (s, w) = notify-sock evt c in
      record {
        once = notify-IsOnce evt c h.once;
        fresh = λ d.
            absurd (let n = (closed_by_loop-other (notify_unexpected_close evt c).state_).1 in cc);
        starts = λ s. no_thread (h.starts s).io_thread i;
        balanced =
            subst (λ a. IsBalanced a (notify_unexpected_close evt c).world_.log) (sym s)
              (subst (λ v. IsBalanced c.sock_ v.log) (sym w) h.balanced);
        live = λ d. absurd ((closed_by_loop-other (notify_unexpected_close evt c).state_).0 d);
      }

  pub io_round-SoundClient :
      (b : Bool) (now : ℕ) (r : Result IncomingFrame) (c : StreamClient (Host W))
      → c.io_thread_ ≡ Thread.running
      → SoundClient b c
      → SoundClient b (turned (io_round now r c))
  unfolding io_round
  io_round-SoundClient b now (ok frame) c i h = h
  io_round-SoundClient b now (err e) c i h = elim (Bool-cases (is_timeout e.kind)) [
    | inl q ↦ elim (Bool-cases (is_dead now c)) [
      | inl d ↦ rw (turned, q, d) (notified-SoundClient b heartbeat_lost _ i h)
      | inr d ↦ rw (turned, q, d) h
    ]
    | inr q ↦ elim (Bool-cases c.closing_) [
      | inl d ↦ rw (turned, q, d) (ended-SoundClient b _ h.starts i h.once h.balanced)
      | inr d ↦ rw (turned, q, d) (notified-SoundClient b (lost e) _ i h)
    ]
  ]

  pub heartbeat_ended-SoundClient :
      (b : Bool) (c : StreamClient (Host W))
      → c.heartbeat_thread_ ≡ Thread.running
      → SoundClient b c
      → SoundClient b (record c { heartbeat_thread_ = Thread.ended })
  heartbeat_ended-SoundClient b c i h = record {
    once = h.once;
    fresh = λ d. no_thread (h.fresh d).heartbeat_thread i;
    starts = λ s. no_thread (h.starts s).heartbeat_thread i;
    balanced = h.balanced;
    live = h.live;
  }

-- ===== src/Client/Notified.antt =====
-- The reader thread: what its loop leaves behind.
use rabbitmq_ai.Common.{
  ℕ, ◌≤◌, ◌≡◌, refl, ap, ◌∙◌, inl, inr, true, false, List, [], ◌∷◌, length, if◌then◌else◌,
  Bool-cases, Option-cases, arith, length-append,
}
use rabbitmq_ai.Result.{Result, ok, err}
use rabbitmq_ai.Frame.{IncomingFrame}
use rabbitmq_ai.Client.{ConnectionState, UnexpectedClose, StreamClient}
use rabbitmq_ai.Client.Loop.{
  is_timeout, closed_by_loop, is_dead, lost, notify_unexpected_close, leave, io_round, io_loop,
}

-- No call before the flag is set, and one at most after.
abbrev pub IsOnce : {W : Type 0} → StreamClient W → Type 0
IsOnce c = length c.notified ≤ (if c.unexpected_fired_ then 1 else 0)

module _ {W : Type 0} where
  pub notify-IsOnce :
      (evt : UnexpectedClose) (c : StreamClient W)
      → IsOnce c
      → IsOnce (notify_unexpected_close evt c)
  unfolding notify_unexpected_close
  notify-IsOnce evt c h = elim (Bool-cases c.unexpected_fired_) [
    | inl e ↦ ground (arith, e, h)
    | inr e ↦ elim (Option-cases c.on_unexpected_close_) [
      | inl o ↦ ground (arith, e, o, h)
      | inr (cb, o) ↦ ground (arith, e, o, h, length-append c.notified ((cb, evt) ∷ []))
    ]
  ]

  pub io_round-IsOnce :
      (now : ℕ) (r : Result IncomingFrame) (c : StreamClient W)
      → IsOnce c
      → IsOnce (io_round now r c).1
  unfolding io_round leave
  io_round-IsOnce now (ok frame) c h = h
  io_round-IsOnce now (err e) c h = elim (Bool-cases (is_timeout e.kind)) [
    | inl q ↦ elim (Bool-cases (is_dead now c)) [
      | inl d ↦ rw (q, d) (notify-IsOnce _ _ h)
      | inr d ↦ rw (q, d) h
    ]
    | inr q ↦ elim (Bool-cases c.closing_) [
      | inl d ↦ rw (q, d) h
      | inr d ↦ rw (q, d) (notify-IsOnce (lost e) _ h)
    ]
  ]

  io_loop-IsOnce :
      (rs : List (ℕ × Result IncomingFrame)) (c : StreamClient W) → IsOnce c → IsOnce (io_loop rs c)
  unfolding io_loop leave
  io_loop-IsOnce [] c h = h
  io_loop-IsOnce ((now, r) ∷ rs) c h = elim (Bool-cases (io_round now r c).0) [
    | inl q ↦ rw q (io_loop-IsOnce rs (io_round now r c).1 (io_round-IsOnce now r c h))
    | inr q ↦ rw q (io_round-IsOnce now r c h)
  ]

  -- Whatever is read, and with whatever errors and timeouts, the reader thread of a client that has not
  -- been notified and whose flag is not set calls the unexpected-close callback once at most.
  pub io_loop-once :
      (rs : List (ℕ × Result IncomingFrame)) (c : StreamClient W)
      → c.notified ≡ []
      → c.unexpected_fired_ ≡ false
      → length (io_loop rs c).notified ≤ 1
  io_loop-once rs c h i = ground (arith, io_loop-IsOnce rs c (rw (h, i) (omega arith)))

  -- While the client closes: no callback, and the state is left to `close`.
  abbrev pub IsQuiet : StreamClient W → StreamClient W → Type 0
  IsQuiet c c' =
      (c'.notified ≡ c.notified)
      × (c'.state_ ≡ ConnectionState.closing)
      × (c'.closing_ ≡ true)
      × (c'.negotiated_heartbeat_ ≡ 0)

  io_round-IsQuiet :
      (now : ℕ) (r : Result IncomingFrame) (c : StreamClient W)
      → c.closing_ ≡ true
      → c.state_ ≡ ConnectionState.closing
      → c.negotiated_heartbeat_ ≡ 0
      → IsQuiet c (io_round now r c).1
  unfolding io_round leave is_dead
  io_round-IsQuiet now (ok frame) c h i j = (refl, i, h, j)
  io_round-IsQuiet now (err e) c h i j = elim (Bool-cases (is_timeout e.kind)) [
    | inl q ↦ rw (q, j) (refl, i, h, refl)
    | inr q ↦ rw (q, h) (refl, ap closed_by_loop i, refl, j)
  ]

  -- While the client closes and no heartbeat is in force, the reader thread calls no callback, whatever
  -- it reads, and leaves the state to `close`.
  pub io_loop-IsQuiet :
      (rs : List (ℕ × Result IncomingFrame)) (c : StreamClient W)
      → c.closing_ ≡ true
      → c.state_ ≡ ConnectionState.closing
      → c.negotiated_heartbeat_ ≡ 0
      → IsQuiet c (io_loop rs c)
  unfolding io_loop leave
  io_loop-IsQuiet [] c h i j = (refl, ap closed_by_loop i, h, j)
  io_loop-IsQuiet ((now, r) ∷ rs) c h i j =
      let first = io_round-IsQuiet now r c h i j in
      elim (Bool-cases (io_round now r c).0) [
        | inl q ↦
            let others = io_loop-IsQuiet rs (io_round now r c).1 first.2 first.1 first.3 in
            rw q (others.0 ∙ first.0, others.1, others.2, others.3)
        | inr q ↦ rw q first
      ]

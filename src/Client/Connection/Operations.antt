-- ===== src/Client/Connection/Operations.antt =====
-- Each operation of the life of a client keeps the invariant.
use rabbitmq_ai.Common.{
  ℕ, ◌*◌, ◌-◌, ◌≡◌, ◌≢◌, refl, sym, subst, ap, Bool, true, false, ◌⊎◌, Option, none, some, Bytes,
  inl, inr, Option-cases, Bool-cases, leb,
}
use rabbitmq_ai.Result.{Result}
use rabbitmq_ai.Commands.Connection.{close_request_command, heartbeat_frame, heartbeat_command}
use rabbitmq_ai.Handshake.{request_frame, oneway_frame}
use rabbitmq_ai.Transport.{Transport}
use rabbitmq_ai.Transport.Preserves.{Keeps}
use rabbitmq_ai.Socket.{Socket, close}
use rabbitmq_ai.Socket.Connect.{Host}
use rabbitmq_ai.Client.{ConnectionState, Thread, StreamClient, is_open}
use rabbitmq_ai.Client.Connection.{
  close_request, ignore, write_ignored, close_socket, stop, end_close, begin_destroy, end_destroy,
  to_closing, begin_close, heartbeat_round,
}
use rabbitmq_ai.Client.Connection.Steps.{IsJoined}
use rabbitmq_ai.Client.Connection.Skeleton.{Skeleton, skeleton, HasSkeleton, writes-Preserves}
use rabbitmq_ai.Client.Connection.Invariant.{
  is_before, IsStarting, IsSound, SoundClient, IsBalanced-close,
}

pub Keeps-at :
    {W A : Type 0} (P : W → Type 0) (q : Option (Result A × W)) (x : Result A) (w : W)
    → Keeps P q
    → q ≡ some (x, w)
    → P w
Keeps-at P q x w k e = subst (Keeps P) e k

-- The same for a client with no result.
abbrev pub Leaves : {W : Type 0} → Skeleton → Option (StreamClient (Host W)) → Type 0
Leaves s none = Unit
Leaves s (some c) = skeleton c ≡ s

pub Leaves-at :
    {W : Type 0} (s : Skeleton) (q : Option (StreamClient (Host W))) (c : StreamClient (Host W))
    → Leaves s q
    → q ≡ some c
    → skeleton c ≡ s
Leaves-at s q c k e = subst (Leaves s) e k

ignore-Leaves :
    {W A : Type 0} (s : Skeleton) (q : Option (Result A × StreamClient (Host W)))
    → Keeps (HasSkeleton s) q
    → Leaves s (ignore q)
ignore-Leaves s none k = tt
ignore-Leaves s (some (x, c)) k = k

closing_starts :
    {k : Skeleton} → IsStarting k → IsStarting (record k { state = ConnectionState.closing })
closing_starts s = record {
  state = refl;
  io_thread = s.io_thread;
  heartbeat_thread = s.heartbeat_thread;
  notified = s.notified;
}

module _ {W : Type 0} (wire : Socket → Transport W) where
  pub write_ignored-skeleton :
      (frame : Bytes) (c c' : StreamClient (Host W))
      → write_ignored wire frame c ≡ some c'
      → skeleton c' ≡ skeleton c
  unfolding write_ignored
  write_ignored-skeleton frame c c' = Leaves-at (skeleton c) _ c' (
      ignore-Leaves (skeleton c) _ ((writes-Preserves (skeleton c) (wire c.sock_) frame).at c refl))

  -- A heartbeat leaves the part alone that the invariant is about.
  pub heartbeat_round-Leaves :
      (now : ℕ) (c : StreamClient (Host W)) → Leaves (skeleton c) (heartbeat_round wire now c)
  unfolding heartbeat_round
  heartbeat_round-Leaves now c =
      elim (Bool-cases (leb (c.negotiated_heartbeat_ * 1000) (now - c.last_outbound_at_))) [
        | inr b ↦ rw (Leaves, b) refl
        | inl b ↦
            elim (Option-cases
              (write_ignored wire (oneway_frame heartbeat_command heartbeat_frame) c)) [
                | inl e ↦ rw (Leaves, b, e) tt
                | inr (c', e) ↦ rw (Leaves, b, e) (write_ignored-skeleton _ c c' e)
              ]
      ]

  pub begin_close-SoundClient :
      (b : Bool) (now : ℕ) (c : StreamClient (Host W))
      → SoundClient b c
      → Keeps (SoundClient b) (begin_close wire now c)
  unfolding begin_close to_closing
  begin_close-SoundClient b now c h =
      let frame : Bytes = request_frame close_request_command close_request c.next_app_cid_ in
      elim (Bool-cases (is_open c.state_)) [
        | inr o ↦ rw (Keeps, o) h
        | inl o ↦ elim (Option-cases (write_ignored wire frame (to_closing now c))) [
          | inl e ↦ rw (Keeps, o, e) tt
          | inr (c', e) ↦
              rw (Keeps, o, e)
                (subst (IsSound b) (sym (write_ignored-skeleton frame (to_closing now c) c' e))
                  (record {
                    once = h.once;
                    fresh = λ d. absurd (cc);
                    starts = λ s. closing_starts {k = skeleton c} (h.starts s);
                    balanced = h.balanced;
                    live = λ d. absurd (cc);
                  }))
        ]
      ]

not_both : {t : Thread} → (false ≡ true) ⊎ (t ≡ Thread.running) → t ≢ Thread.running → ⊥
not_both (inl e) n = absurd (cc)
not_both (inr e) n = n e

module _ {W : Type 0} where
  pub stop-SoundClient :
      (b : Bool) (c : StreamClient (Host W))
      → c.state_ ≡ ConnectionState.closing
      → SoundClient b c
      → SoundClient b (stop c)
  unfolding stop close_socket close
  stop-SoundClient b c e h = record {
    once = h.once;
    fresh = λ d. absurd (let n = ap is_before e in cc);
    starts = λ s. record {
      state = (h.starts s).state;
      io_thread = (h.starts s).io_thread;
      heartbeat_thread = (h.starts s).heartbeat_thread;
      notified = (h.starts s).notified;
    };
    balanced = IsBalanced-close c.sock_ c.world_.log h.balanced;
    live = λ d. absurd (cc);
  }

  pub end_close-SoundClient :
      (b : Bool) (c : StreamClient (Host W)) → SoundClient b c → SoundClient b (end_close c)
  unfolding end_close
  end_close-SoundClient b c h = record {
    once = h.once;
    fresh = λ d. absurd (cc);
    starts = λ s. record {
      state = refl;
      io_thread = refl;
      heartbeat_thread = refl;
      notified = (h.starts s).notified;
    };
    balanced = h.balanced;
    live = λ d. absurd (cc);
  }

  pub begin_destroy-SoundClient :
      (c : StreamClient (Host W)) → SoundClient false c → SoundClient false (begin_destroy c)
  unfolding begin_destroy
  begin_destroy-SoundClient c h = record {
    once = h.once;
    fresh = λ d. record {
      sock = (h.fresh d).sock;
      io_thread = (h.fresh d).io_thread;
      heartbeat_thread = (h.fresh d).heartbeat_thread;
      notified = (h.fresh d).notified;
    };
    starts = λ s. absurd (cc);
    balanced = h.balanced;
    live = h.live;
  }

  pub end_destroy-SoundClient :
      (c : StreamClient (Host W))
      → IsJoined c
      → SoundClient false c
      → SoundClient false (end_destroy c)
  unfolding end_destroy close_socket close
  end_destroy-SoundClient c j h = record {
    once = h.once;
    fresh = λ d. record {
      sock = refl;
      io_thread = refl;
      heartbeat_thread = refl;
      notified = (h.fresh d).notified;
    };
    starts = λ s. absurd (cc);
    balanced = IsBalanced-close c.sock_ c.world_.log h.balanced;
    live = λ d. absurd (not_both (h.live d).0 j.io_thread);
  }

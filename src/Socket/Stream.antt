-- ===== src/Socket/Stream.antt =====
-- What POSIX says of `send` and `recv` on a stream socket, as far as the client relies on it.
use rabbitmq_ai.Common.{ℕ, suc, ◌≤◌, ◌<◌, ◌≡◌, ◌⊎◌, [], ◌∷◌, ◌++◌, Bytes, length, take}
use rabbitmq_ai.Socket.{Errno, eintr, sent, not_sent, received, not_received, Kernel}

-- Bytes are moved in order: `inbound w` is what the peer has sent and `recv` has not returned,
-- `outbound w` what `send` has taken.
pub record IsStream {W : Type 0} (k : Kernel W) : Type 0 where
  pub inbound : W → Bytes
  pub outbound : W → Bytes
  pub send_takes :
      (xs : Bytes) (w w' : W) (n : ℕ)
      → k.send xs w ≡ (sent n, w')
      → (n ≤ length xs) × (outbound w' ≡ outbound w ++ take n xs) × (inbound w' ≡ inbound w)
  pub send_fails :
      (xs : Bytes) (w w' : W) (e : Errno)
      → k.send xs w ≡ (not_sent e, w')
      → (outbound w' ≡ outbound w) × (inbound w' ≡ inbound w)
  pub recv_takes :
      (n : ℕ) (w w' : W) (xs : Bytes)
      → k.recv n w ≡ (received xs, w')
      → (length xs ≤ n) × (inbound w ≡ xs ++ inbound w') × (outbound w' ≡ outbound w)
  pub recv_fails :
      (n : ℕ) (w w' : W) (e : Errno)
      → k.recv n w ≡ (not_received e, w')
      → (inbound w' ≡ inbound w) × (outbound w' ≡ outbound w)

-- A connection that works: a call moves a byte, or is interrupted, which happens `delays w` more times
-- at most; the peer closes once all its bytes are received.
pub record IsHealthy {W : Type 0} (k : Kernel W) (s : IsStream k) : Type 0 where
  pub delays : W → ℕ
  pub send_moves :
      (x : ℕ) (xs : Bytes) (w : W)
      → ((n : ℕ) × (w' : W) × (k.send (x ∷ xs) w ≡ (sent (suc n), w')) × (delays w' ≤ delays w))
        ⊎ ((w' : W) × (k.send (x ∷ xs) w ≡ (not_sent eintr, w')) × (delays w' < delays w))
  pub recv_moves :
      (n x : ℕ) (xs : Bytes) (w : W)
      → s.inbound w ≡ x ∷ xs
      → ((y : ℕ) × (ys : Bytes) × (w' : W) × (k.recv (suc n) w ≡ (received (y ∷ ys), w'))
          × (delays w' ≤ delays w))
        ⊎ ((w' : W) × (k.recv (suc n) w ≡ (not_received eintr, w')) × (delays w' < delays w))
  pub recv_ends :
      (n : ℕ) (w : W)
      → s.inbound w ≡ []
      → ((w' : W) × (k.recv (suc n) w ≡ (received [], w')) × (delays w' ≤ delays w))
        ⊎ ((w' : W) × (k.recv (suc n) w ≡ (not_received eintr, w')) × (delays w' < delays w))

-- ===== src/Socket/Safety.antt =====
-- What the loops keep, however a stream socket answers.
use rabbitmq_ai.Common.{
  ℕ, zero, suc, ◌+◌, ◌-◌, ◌≡◌, ◌≢◌, subst, refl, sym, ap, ◌∙◌, ◌⊎◌, inl, inr, ◌&&◌, Option, none,
  some, [], ◌∷◌, ◌++◌, append-nil, append_assoc, Bytes, length, take, drop, take-append-drop,
  length-append, arith, if◌then◌else◌, ◌==◌,
}
use rabbitmq_ai.Errors.{Kind, StreamError}
use rabbitmq_ai.Result.{Result, ok, err}
use rabbitmq_ai.Transport.{Io}
use rabbitmq_ai.Socket.{
  eintr, eagain, other_errno, Sent, sent, not_sent, Received, received, not_received, Kernel,
  TimeoutMode, return_timeout, treat_as_error, is_return, after_send, write_loop, write_all,
  after_recv, read_loop, read_exact, recv_timeout, peer_closed, timeout_error, recv_error,
  closed_during_send, send_error,
}
use rabbitmq_ai.Socket.Stream.{IsStream}

nothing_yet :
    {P : Type 0} (got xs f : Bytes)
    → P ⊎ ((got ++ xs ≡ []) × (f ≡ []))
    → P ⊎ ((got ≡ []) × (xs ++ f ≡ []))
nothing_yet got xs f (inl other) = inl other
nothing_yet [] [] f (inr (e, q)) = inr (refl, q)
nothing_yet [] (x ∷ xs) f (inr (e, q)) = absurd (omega (arith, ap length e))
nothing_yet (g ∷ got) xs f (inr (e, q)) = absurd (omega (arith, ap length e))

module _ {W : Type 0} (k : Kernel W) (s : IsStream k) where
  -- What a write of `bytes` that began at `w` leaves: a first part of them is sent, and all if it
  -- succeeds.
  abbrev pub Wrote : Bytes → W → Option (Result (Unit {0}) × W) → Type 0
  Wrote bytes w none = Unit
  Wrote bytes w (some (ok _, w')) =
      (s.outbound w' ≡ s.outbound w ++ bytes) × (s.inbound w' ≡ s.inbound w)
  Wrote bytes w (some (err _, w')) =
      (front : Bytes) × (back : Bytes) × (bytes ≡ front ++ back)
      × (s.outbound w' ≡ s.outbound w ++ front)
      × (s.inbound w' ≡ s.inbound w)

  -- A write that goes on after `front`.
  Wrote-after :
      (front left : Bytes) (w w' : W) (q : Option (Result (Unit {0}) × W))
      → s.outbound w' ≡ s.outbound w ++ front
      → s.inbound w' ≡ s.inbound w
      → Wrote left w' q
      → Wrote (front ++ left) w q
  Wrote-after front left w w' none o i h = tt
  Wrote-after front left w w' (some (ok _, w₂)) o i h =
      (h.0 ∙ ap (λ t. t ++ left) o ∙ append_assoc (s.outbound w) front left, h.1 ∙ i)
  Wrote-after front left w w' (some (err _, w₂)) o i (f, b, split, o', i') = (
    front ++ f,
    b,
    ap (λ t. front ++ t) split ∙ sym (append_assoc front f b),
    o' ∙ ap (λ t. t ++ f) o ∙ append_assoc (s.outbound w) front f,
    i' ∙ i,
  )

  Wrote-none :
      (bytes : Bytes) (w w' : W) (e : StreamError)
      → s.outbound w' ≡ s.outbound w
      → s.inbound w' ≡ s.inbound w
      → Wrote bytes w (some (err e, w'))
  Wrote-none bytes w w' e o i = ([], bytes, refl, o ∙ sym (append-nil (s.outbound w)), i)

  after_send-Wrote :
      (again : Bytes → Io W (Unit {0})) (x : ℕ) (xs : Bytes) (w : W) (q : Sent × W)
      → k.send (x ∷ xs) w ≡ q
      → ((left : Bytes) (w' : W) → Wrote left w' (again left w'))
      → Wrote (x ∷ xs) w (after_send k again (x ∷ xs) q)
  unfolding after_send
  after_send-Wrote again x xs w (sent zero, w') e h =
      let t = s.send_takes (x ∷ xs) w w' 0 e in
      Wrote-none (x ∷ xs) w w' closed_during_send (t.1 ∙ append-nil (s.outbound w)) t.2
  after_send-Wrote again x xs w (sent (suc n), w') e h =
      let t = s.send_takes (x ∷ xs) w w' (suc n) e in
      subst (λ bs. Wrote bs w (again (drop n xs) w')) (take-append-drop (suc n) (x ∷ xs))
        (Wrote-after (x ∷ take n xs) (drop n xs) w w' _ t.1 t.2 (h (drop n xs) w'))
  after_send-Wrote again x xs w (not_sent eintr, w') e h =
      let t = s.send_fails (x ∷ xs) w w' eintr e in
      Wrote-after [] (x ∷ xs) w w' _ (t.0 ∙ sym (append-nil (s.outbound w))) t.1 (h (x ∷ xs) w')
  after_send-Wrote again x xs w (not_sent eagain, w') e h =
      let t = s.send_fails (x ∷ xs) w w' eagain e in
      Wrote-none (x ∷ xs) w w' (send_error k eagain) t.0 t.1
  after_send-Wrote again x xs w (not_sent (other_errno n), w') e h =
      let t = s.send_fails (x ∷ xs) w w' (other_errno n) e in
      Wrote-none (x ∷ xs) w w' (send_error k (other_errno n)) t.0 t.1

  write_loop-Wrote : (fuel : ℕ) (bytes : Bytes) (w : W) → Wrote bytes w (write_loop k fuel bytes w)
  unfolding write_loop
  write_loop-Wrote zero [] w = (sym (append-nil (s.outbound w)), refl)
  write_loop-Wrote (suc fuel) [] w = (sym (append-nil (s.outbound w)), refl)
  write_loop-Wrote zero (x ∷ xs) w = tt
  write_loop-Wrote (suc fuel) (x ∷ xs) w =
      after_send-Wrote (write_loop k fuel) x xs w (k.send (x ∷ xs) w) refl (write_loop-Wrote fuel)

  -- On any stream socket, a write that succeeds has sent exactly its bytes, in order, after those sent
  -- before; a write that fails has sent a first part of them, nothing twice and nothing out of order.
  -- Neither receives anything.
  pub write_all-Wrote :
      (interrupts : ℕ) (bytes : Bytes) (w : W) → Wrote bytes w (write_all k interrupts bytes w)
  unfolding write_all
  write_all-Wrote interrupts bytes w = write_loop-Wrote (interrupts + length bytes) bytes w

  -- What a read of `n` more bytes behind `got` leaves: what is received is what came first, all `n`
  -- bytes of it if it succeeds, and none of it before a timeout.
  abbrev pub ReadOut : ℕ → Bytes → W → Option (Result Bytes × W) → Type 0
  ReadOut n got w none = Unit
  ReadOut n got w (some (ok bytes, w')) =
      (front : Bytes) × (bytes ≡ got ++ front)
      × (length front ≡ n)
      × (s.inbound w ≡ front ++ s.inbound w')
      × (s.outbound w' ≡ s.outbound w)
  ReadOut n got w (some (err e, w')) =
      (front : Bytes) × (s.inbound w ≡ front ++ s.inbound w')
      × (s.outbound w' ≡ s.outbound w)
      × ((e.kind ≢ Kind.request_timeout) ⊎ ((got ≡ []) × (front ≡ [])))

  ReadOut-after :
      (n m : ℕ) (got xs : Bytes) (w w' : W) (q : Option (Result Bytes × W))
      → m + length xs ≡ n
      → s.inbound w ≡ xs ++ s.inbound w'
      → s.outbound w' ≡ s.outbound w
      → ReadOut m (got ++ xs) w' q
      → ReadOut n got w q
  ReadOut-after n m got xs w w' none l i o h = tt
  ReadOut-after n m got xs w w' (some (ok bytes, w₂)) l i o (f, e, len, i', o') = (
    xs ++ f,
    e ∙ append_assoc got xs f,
    omega (arith, length-append xs f),
    i ∙ ap (λ t. xs ++ t) i' ∙ sym (append_assoc xs f (s.inbound w₂)),
    o' ∙ o,
  )
  ReadOut-after n m got xs w w' (some (err e, w₂)) l i o (f, i', o', timeout) = (
    xs ++ f,
    i ∙ ap (λ t. xs ++ t) i' ∙ sym (append_assoc xs f (s.inbound w₂)),
    o' ∙ o,
    nothing_yet got xs f timeout,
  )

  ReadOut-fails :
      (n : ℕ) (got : Bytes) (w w' : W) (e : StreamError)
      → s.inbound w' ≡ s.inbound w
      → s.outbound w' ≡ s.outbound w
      → (e.kind ≢ Kind.request_timeout) ⊎ (got ≡ [])
      → ReadOut n got w (some (err e, w'))
  ReadOut-fails n got w w' e i o (inl other) = ([], sym i, o, inl other)
  ReadOut-fails n got w w' e i o (inr nothing) = ([], sym i, o, inr (nothing, refl))

  -- A timeout is reported as such only where nothing has arrived.
  timeout_kind :
      (mode : TimeoutMode) (got : Bytes) (e : StreamError)
      → e.kind ≡ Kind.io_error
      → ((if is_return mode && length got == 0 then recv_timeout else e).kind
          ≢ Kind.request_timeout)
        ⊎ (got ≡ [])
  timeout_kind treat_as_error got e h = inl (λ q. cc)
  timeout_kind return_timeout [] e h = inr refl
  timeout_kind return_timeout (x ∷ xs) e h = inl (λ q. ground (arith, h))

  after_recv-ReadOut :
      (mode : TimeoutMode) (again : ℕ → Bytes → Io W Bytes) (n : ℕ) (got : Bytes) (w : W)
      (q : Received × W)
      → k.recv n w ≡ q
      → ((m : ℕ) (g : Bytes) (w' : W) → ReadOut m g w' (again m g w'))
      → ReadOut n got w (after_recv k mode again n got q)
  unfolding after_recv
  after_recv-ReadOut mode again n got w (received [], w') e h =
      let t = s.recv_takes n w w' [] e in
      ReadOut-fails n got w w' peer_closed (sym t.1) t.2 (inl (λ q. cc))
  after_recv-ReadOut mode again n got w (received (x ∷ xs), w') e h =
      let t = s.recv_takes n w w' (x ∷ xs) e in
      ReadOut-after n (n - length (x ∷ xs)) got (x ∷ xs) w w' _ (omega (arith, t.0)) t.1 t.2
        (h (n - length (x ∷ xs)) (got ++ x ∷ xs) w')
  after_recv-ReadOut mode again n got w (not_received eintr, w') e h =
      let t = s.recv_fails n w w' eintr e in
      subst (λ g. ReadOut n got w (again n g w')) (append-nil got)
        (ReadOut-after n n got [] w w' _ (omega arith) (sym t.0) t.1 (h n (got ++ []) w'))
  after_recv-ReadOut mode again n got w (not_received eagain, w') e h =
      let t = s.recv_fails n w w' eagain e in
      ReadOut-fails n got w w' (timeout_error k mode got) t.0 t.1
        (timeout_kind mode got (recv_error k eagain) refl)
  after_recv-ReadOut mode again n got w (not_received (other_errno c), w') e h =
      let t = s.recv_fails n w w' (other_errno c) e in
      ReadOut-fails n got w w' (recv_error k (other_errno c)) t.0 t.1 (inl (λ q. cc))

  read_loop-ReadOut :
      (mode : TimeoutMode) (fuel n : ℕ) (got : Bytes) (w : W)
      → ReadOut n got w (read_loop k mode fuel n got w)
  unfolding read_loop
  read_loop-ReadOut mode zero zero got w = ([], sym (append-nil got), refl, refl, refl)
  read_loop-ReadOut mode (suc fuel) zero got w = ([], sym (append-nil got), refl, refl, refl)
  read_loop-ReadOut mode zero (suc n) got w = tt
  read_loop-ReadOut mode (suc fuel) (suc n) got w =
      after_recv-ReadOut mode (read_loop k mode fuel) (suc n) got w (k.recv (suc n) w) refl
        (read_loop-ReadOut mode fuel)

  -- On any stream socket, a read of `n` bytes that succeeds gives exactly the first `n` bytes that had
  -- not been received, in order, and leaves what follows them; one that fails has taken a first part
  -- of the stream, and none of it if the error is a RequestTimeout. Neither sends anything.
  pub read_exact-ReadOut :
      (interrupts n : ℕ) (mode : TimeoutMode) (w : W)
      → ReadOut n [] w (read_exact k interrupts n mode w)
  unfolding read_exact
  read_exact-ReadOut interrupts n mode w = read_loop-ReadOut mode (interrupts + n) n [] w

-- ===== src/Socket/Progress.antt =====
-- On a connection that works, the loops end, on the rounds that they are given.
use rabbitmq_ai.Common.{
  ℕ, zero, suc, ◌+◌, ◌≤◌, ◌<◌, ◌≡◌, refl, sym, ap, ap₂, ◌∙◌, inl, inr, some, [], ◌∷◌, ◌++◌,
  append-nil, append_assoc, Bytes, length, take, drop, take-append-drop, length-drop, arith,
}
use rabbitmq_ai.Result.{ok, err}
use rabbitmq_ai.Socket.{
  eintr, Kernel, TimeoutMode, after_send, write_loop, write_all, after_recv, read_loop, read_exact,
  peer_closed,
}
use rabbitmq_ai.Socket.Stream.{IsStream, IsHealthy}

-- Two ways to cut one list, the first before the second.
cut :
    (xs ys us vs : Bytes)
    → xs ++ us ≡ ys ++ vs
    → length xs ≤ length ys
    → (xs ++ drop (length xs) ys ≡ ys) × (us ≡ drop (length xs) ys ++ vs)
cut [] ys us vs e h = (refl, e)
cut (x ∷ xs) [] us vs e h = absurd (omega arith)
cut (x ∷ xs) (y ∷ ys) us vs e h =
    let same : x ≡ y = cc in let t = cut xs ys us vs (cc) (omega arith) in (ap₂ ◌∷◌ same t.0, t.1)

module _ {W : Type 0} (k : Kernel W) (s : IsStream k) (g : IsHealthy k s) where
  -- Where a world is after `sending` is sent and `left` is left to receive.
  pub record IsAfter (w : W) (sending left : Bytes) (w' : W) : Type 0 where
    pub outbound : s.outbound w' ≡ s.outbound w ++ sending
    pub inbound : s.inbound w' ≡ left
    pub delays : g.delays w' ≤ g.delays w

  write_loop-ends :
      (fuel : ℕ) (bytes : Bytes) (w : W)
      → g.delays w + length bytes ≤ fuel
      → (w' : W) × (write_loop k fuel bytes w ≡ some (ok tt, w')) × IsAfter w bytes (s.inbound w) w'
  unfolding write_loop after_send
  write_loop-ends zero [] w h = (
    w,
    refl,
    record { outbound = sym (append-nil (s.outbound w)); inbound = refl; delays = omega arith },
  )
  write_loop-ends (suc fuel) [] w h = (
    w,
    refl,
    record { outbound = sym (append-nil (s.outbound w)); inbound = refl; delays = omega arith },
  )
  write_loop-ends zero (x ∷ xs) w h = absurd (omega arith)
  write_loop-ends (suc fuel) (x ∷ xs) w h = elim (g.send_moves x xs w) [
    | inl (n, w₁, e, d) ↦
        let t = s.send_takes (x ∷ xs) w w₁ (suc n) e in
        let (w₂, q, a) = write_loop-ends fuel (drop n xs) w₁ (omega (arith, length-drop n xs)) in
        (
          w₂,
          ap (after_send k (write_loop k fuel) (x ∷ xs)) e ∙ q,
          record {
            outbound =
                a.outbound
                ∙ ap (λ o. o ++ drop n xs) t.1
                ∙ append_assoc (s.outbound w) (x ∷ take n xs) (drop n xs)
                ∙ ap (λ bs. s.outbound w ++ bs) (take-append-drop (suc n) (x ∷ xs));
            inbound = a.inbound ∙ t.2;
            delays = omega (arith, a.delays);
          },
        )
    | inr (w₁, e, d) ↦
        let t = s.send_fails (x ∷ xs) w w₁ eintr e in
        let (w₂, q, a) = write_loop-ends fuel (x ∷ xs) w₁ (omega arith) in
        (
          w₂,
          ap (after_send k (write_loop k fuel) (x ∷ xs)) e ∙ q,
          record {
            outbound = a.outbound ∙ ap (λ o. o ++ x ∷ xs) t.0;
            inbound = a.inbound ∙ t.1;
            delays = omega (arith, a.delays);
          },
        )
  ]

  -- On a connection that works and is interrupted at most `interrupts` times, write_all ends and
  -- succeeds, and all bytes are sent.
  pub write_all-ends :
      (interrupts : ℕ) (bytes : Bytes) (w : W)
      → g.delays w ≤ interrupts
      → (w' : W) × (write_all k interrupts bytes w ≡ some (ok tt, w'))
        × IsAfter w bytes (s.inbound w) w'
  unfolding write_all
  write_all-ends interrupts bytes w h =
      write_loop-ends (interrupts + length bytes) bytes w (omega arith)

  read_loop-ends :
      (mode : TimeoutMode) (fuel : ℕ) (bytes rest got : Bytes) (w : W)
      → g.delays w + length bytes ≤ fuel
      → s.inbound w ≡ bytes ++ rest
      → (w' : W) × (read_loop k mode fuel (length bytes) got w ≡ some (ok (got ++ bytes), w'))
        × IsAfter w [] rest w'
  unfolding read_loop after_recv
  read_loop-ends mode zero [] rest got w h i = (
    w,
    ap (λ o. some (ok o, w)) (sym (append-nil got)),
    record { outbound = sym (append-nil (s.outbound w)); inbound = i; delays = omega arith },
  )
  read_loop-ends mode (suc fuel) [] rest got w h i = (
    w,
    ap (λ o. some (ok o, w)) (sym (append-nil got)),
    record { outbound = sym (append-nil (s.outbound w)); inbound = i; delays = omega arith },
  )
  read_loop-ends mode zero (x ∷ xs) rest got w h i = absurd (omega arith)
  read_loop-ends mode (suc fuel) (x ∷ xs) rest got w h i =
      elim (g.recv_moves (length xs) x (xs ++ rest) w i) [
        | inl (y, ys, w₁, e, d) ↦
            let t = s.recv_takes (suc (length xs)) w w₁ (y ∷ ys) e in
            let (front, behind) = cut (y ∷ ys) (x ∷ xs) (s.inbound w₁) rest (sym t.1 ∙ i) t.0 in
            let left : Bytes = drop (length (y ∷ ys)) (x ∷ xs) in
            let (w₂, q, a) =
              read_loop-ends mode fuel left rest (got ++ y ∷ ys) w₁
                (omega (arith, length-drop (length (y ∷ ys)) (x ∷ xs))) behind in
            (
              w₂,
              ap (after_recv k mode (read_loop k mode fuel) (suc (length xs)) got) e
                  ∙ ap (λ n. read_loop k mode fuel n (got ++ y ∷ ys) w₁)
                      (sym (length-drop (length (y ∷ ys)) (x ∷ xs)))
                  ∙ q
                  ∙ ap (λ o. some (ok o, w₂))
                      (append_assoc got (y ∷ ys) left ∙ ap (λ bs. got ++ bs) front),
              record {
                outbound = a.outbound ∙ ap (λ o. o ++ []) t.2;
                inbound = a.inbound;
                delays = omega (arith, a.delays);
              },
            )
        | inr (w₁, e, d) ↦
            let t = s.recv_fails (suc (length xs)) w w₁ eintr e in
            let (w₂, q, a) =
              read_loop-ends mode fuel (x ∷ xs) rest got w₁ (omega arith) (t.0 ∙ i) in
            (
              w₂,
              ap (after_recv k mode (read_loop k mode fuel) (suc (length xs)) got) e ∙ q,
              record {
                outbound = a.outbound ∙ ap (λ o. o ++ []) t.1;
                inbound = a.inbound;
                delays = omega (arith, a.delays);
              },
            )
      ]

  -- If the peer has sent `bytes` and then `rest`, on a connection that works and is interrupted at most
  -- `interrupts` times, read_exact ends and gives `bytes`, however the kernel cuts them, and leaves `rest`.
  pub read_exact-ends :
      (interrupts : ℕ) (mode : TimeoutMode) (bytes rest : Bytes) (w : W)
      → g.delays w ≤ interrupts
      → s.inbound w ≡ bytes ++ rest
      → (w' : W) × (read_exact k interrupts (length bytes) mode w ≡ some (ok bytes, w'))
        × IsAfter w [] rest w'
  unfolding read_exact
  read_exact-ends interrupts mode bytes rest w h i =
      read_loop-ends mode (interrupts + length bytes) bytes rest [] w (omega arith) i

  read_loop-closed :
      (mode : TimeoutMode) (fuel n : ℕ) (got : Bytes) (w : W)
      → g.delays w < fuel
      → s.inbound w ≡ []
      → (w' : W) × (read_loop k mode fuel (suc n) got w ≡ some (err peer_closed, w'))
        × IsAfter w [] [] w'
  unfolding read_loop after_recv
  read_loop-closed mode zero n got w h i = absurd (omega arith)
  read_loop-closed mode (suc fuel) n got w h i = elim (g.recv_ends n w i) [
    | inl (w₁, e, d) ↦
        let t = s.recv_takes (suc n) w w₁ [] e in
        (
          w₁,
          ap (after_recv k mode (read_loop k mode fuel) (suc n) got) e,
          record {
            outbound = t.2 ∙ sym (append-nil (s.outbound w));
            inbound = sym t.1 ∙ i;
            delays = d;
          },
        )
    | inr (w₁, e, d) ↦
        let t = s.recv_fails (suc n) w w₁ eintr e in
        let (w₂, q, a) = read_loop-closed mode fuel n got w₁ (omega arith) (t.0 ∙ i) in
        (
          w₂,
          ap (after_recv k mode (read_loop k mode fuel) (suc n) got) e ∙ q,
          record {
            outbound = a.outbound ∙ ap (λ o. o ++ []) t.1;
            inbound = a.inbound;
            delays = omega (arith, a.delays);
          },
        )
  ]

  -- Once all is received and the peer has closed, read_exact of at least one byte ends with
  -- ConnectionClosed.
  pub read_exact-closed :
      (interrupts n : ℕ) (mode : TimeoutMode) (w : W)
      → g.delays w ≤ interrupts
      → s.inbound w ≡ []
      → (w' : W) × (read_exact k interrupts (suc n) mode w ≡ some (err peer_closed, w'))
        × IsAfter w [] [] w'
  unfolding read_exact
  read_exact-closed interrupts n mode w h i =
      read_loop-closed mode (interrupts + suc n) n [] w (omega arith) i

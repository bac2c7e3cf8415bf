-- ===== src/Examples/Links.antt =====
-- A kernel that moves one byte in each call, once it has interrupted as many calls as it has to.
use rabbitmq_ai.Common.{
  ℕ, zero, suc, ◌≤◌, ◌<◌, ◌≡◌, refl, sym, subst, ◌⊎◌, inl, inr, [], ◌∷◌, ◌++◌, append-nil, Bytes,
  text, length, take, arith,
}
use rabbitmq_ai.Socket.{eintr, Sent, sent, not_sent, Received, received, not_received, Kernel}
use rabbitmq_ai.Socket.Stream.{IsStream, IsHealthy}

pub record Link : Type 0 where
  pub inbox : Bytes
  pub outbox : Bytes
  pub interrupts : ℕ

abbrev send_byte : Bytes → ℕ → Link → Sent × Link
send_byte xs (suc d) w = (not_sent eintr, record w { interrupts = d })
send_byte [] zero w = (sent 0, w)
send_byte (x ∷ xs) zero w = (sent 1, record w { outbox = w.outbox ++ x ∷ [] })

abbrev recv_byte : ℕ → ℕ → Bytes → Link → Received × Link
recv_byte n (suc d) bytes w = (not_received eintr, record w { interrupts = d })
recv_byte zero zero bytes w = (received [], w)
recv_byte (suc n) zero [] w = (received [], w)
recv_byte (suc n) zero (x ∷ xs) w = (received (x ∷ []), record w { inbox = xs })

abbrev pub kernel : Kernel Link
kernel = record {
  send = λ xs w. send_byte xs w.interrupts w;
  recv = λ n w. recv_byte n w.interrupts w.inbox w;
  strerror = λ e. text "error";
}

abbrev SendLaw : Bytes → Link → Sent × Link → Type 0
SendLaw xs w (sent n, w') =
    (n ≤ length xs) × (w'.outbox ≡ w.outbox ++ take n xs) × (w'.inbox ≡ w.inbox)
SendLaw xs w (not_sent e, w') = (w'.outbox ≡ w.outbox) × (w'.inbox ≡ w.inbox)

pub send-law : (xs : Bytes) (d : ℕ) (w : Link) → SendLaw xs w (send_byte xs d w)
send-law xs (suc d) w = (refl, refl)
send-law [] zero w = (omega arith, sym (append-nil w.outbox), refl)
send-law (x ∷ xs) zero w = (omega arith, refl, refl)

abbrev RecvLaw : ℕ → Link → Received × Link → Type 0
RecvLaw n w (received xs, w') =
    (length xs ≤ n) × (w.inbox ≡ xs ++ w'.inbox) × (w'.outbox ≡ w.outbox)
RecvLaw n w (not_received e, w') = (w'.inbox ≡ w.inbox) × (w'.outbox ≡ w.outbox)

pub recv-law :
    (n d : ℕ) (bytes : Bytes) (w : Link) → w.inbox ≡ bytes → RecvLaw n w (recv_byte n d bytes w)
recv-law n (suc d) bytes w e = (refl, refl)
recv-law zero zero bytes w e = (omega arith, refl, refl)
recv-law (suc n) zero [] w e = (omega arith, refl, refl)
recv-law (suc n) zero (x ∷ xs) w e = (omega arith, e, refl)

abbrev pub stream : IsStream kernel
stream = record {
  inbound = λ w. w.inbox;
  outbound = λ w. w.outbox;
  send_takes = λ xs w w' n e. subst (SendLaw xs w) e (send-law xs w.interrupts w);
  send_fails = λ xs w w' x e. subst (SendLaw xs w) e (send-law xs w.interrupts w);
  recv_takes = λ n w w' xs e. subst (RecvLaw n w) e (recv-law n w.interrupts w.inbox w refl);
  recv_fails = λ n w w' x e. subst (RecvLaw n w) e (recv-law n w.interrupts w.inbox w refl);
}

pub send-moves :
    (x : ℕ) (xs : Bytes) (d : ℕ) (w : Link)
    → w.interrupts ≡ d
    → ((n : ℕ) × (w' : Link) × (send_byte (x ∷ xs) d w ≡ (sent (suc n), w'))
        × (w'.interrupts ≤ w.interrupts))
      ⊎ ((w' : Link) × (send_byte (x ∷ xs) d w ≡ (not_sent eintr, w'))
          × (w'.interrupts < w.interrupts))
send-moves x xs (suc d) w e = inr (_, refl, omega (arith, e))
send-moves x xs zero w e = inl (0, _, refl, omega arith)

pub recv-moves :
    (n x : ℕ) (xs : Bytes) (d : ℕ) (w : Link)
    → w.interrupts ≡ d
    → ((y : ℕ) × (ys : Bytes) × (w' : Link) × (recv_byte (suc n) d (x ∷ xs) w
          ≡ (received (y ∷ ys), w'))
        × (w'.interrupts ≤ w.interrupts))
      ⊎ ((w' : Link) × (recv_byte (suc n) d (x ∷ xs) w ≡ (not_received eintr, w'))
          × (w'.interrupts < w.interrupts))
recv-moves n x xs (suc d) w e = inr (_, refl, omega (arith, e))
recv-moves n x xs zero w e = inl (x, [], _, refl, omega arith)

pub recv-ends :
    (n d : ℕ) (w : Link)
    → w.interrupts ≡ d
    → ((w' : Link) × (recv_byte (suc n) d [] w ≡ (received [], w'))
        × (w'.interrupts ≤ w.interrupts))
      ⊎ ((w' : Link) × (recv_byte (suc n) d [] w ≡ (not_received eintr, w'))
          × (w'.interrupts < w.interrupts))
recv-ends n (suc d) w e = inr (_, refl, omega (arith, e))
recv-ends n zero w e = inl (_, refl, omega arith)

abbrev RecvMoves : ℕ → Link → Bytes → Type 0
RecvMoves n w bytes =
    ((y : ℕ) × (ys : Bytes) × (w' : Link) × (recv_byte (suc n) w.interrupts bytes w
        ≡ (received (y ∷ ys), w'))
      × (w'.interrupts ≤ w.interrupts))
    ⊎ ((w' : Link) × (recv_byte (suc n) w.interrupts bytes w ≡ (not_received eintr, w'))
        × (w'.interrupts < w.interrupts))

abbrev RecvEnds : ℕ → Link → Bytes → Type 0
RecvEnds n w bytes =
    ((w' : Link) × (recv_byte (suc n) w.interrupts bytes w ≡ (received [], w'))
      × (w'.interrupts ≤ w.interrupts))
    ⊎ ((w' : Link) × (recv_byte (suc n) w.interrupts bytes w ≡ (not_received eintr, w'))
        × (w'.interrupts < w.interrupts))

abbrev pub healthy : IsHealthy kernel stream
healthy = record {
  delays = λ w. w.interrupts;
  send_moves = λ x xs w. send-moves x xs w.interrupts w refl;
  recv_moves = λ n x xs w e. subst (RecvMoves n w) (sym e) (recv-moves n x xs w.interrupts w refl);
  recv_ends = λ n w e. subst (RecvEnds n w) (sym e) (recv-ends n w.interrupts w refl);
}

-- ===== src/Client/Requests.antt =====
-- One request and the response to it.
use rabbitmq_ai.Common.{
  ℕ, suc, ◌+◌, ◌-◌, ◌%◌, ◌^◌, ◌≡◌, refl, ap, ◌∙◌, true, none, some, List, [], ◌∷◌, ◌++◌, Bytes,
  length, arith,
}
use rabbitmq_ai.Result.{Result, ok}
use rabbitmq_ai.Frame.{IncomingFrame, encode_request_frame, check_outbound_frame_size}
use rabbitmq_ai.Frame.Key.{is_response}
use rabbitmq_ai.Transport.{Transport, Io, from, starts}
use rabbitmq_ai.Dispatcher.{Dispatcher, find}
use rabbitmq_ai.Dispatcher.Steps.{Operation, dispatches, step, run}
use rabbitmq_ai.Dispatcher.Conservation.{count, resolved, IsConserved}
use rabbitmq_ai.Dispatcher.Routing.{register_fresh, dispatch_registered}
use rabbitmq_ai.Client.{
  on_world, StreamClient, value_of, writes, sent, waits, transmit, send_and_wait,
}

-- A promise that the log does not count has no value, and gets the one that is appended.
pub value_of-append :
    (p : ℕ) (v : Result IncomingFrame) (fs : List (ℕ × Result IncomingFrame))
    → count p (resolved fs) ≡ 0
    → value_of p (fs ++ (p, v) ∷ []) ≡ some v
unfolding value_of
value_of-append p v [] h = ground arith
value_of-append p v ((k, x) ∷ fs) h = ground (arith, value_of-append p v fs)

-- The promise made next is not in the log.
not_made : (d : Dispatcher) → IsConserved d → count d.promises (resolved d.fulfilled) ≡ 0
not_made d h = ground (arith, h d.promises)

-- The dispatcher after a request that was answered.
abbrev pub answered : Dispatcher → IncomingFrame → Dispatcher
answered d fr = record d {
  promises = suc d.promises;
  fulfilled = d.fulfilled ++ (d.promises, ok fr) ∷ [];
}

-- The client after it.
abbrev pub client_after : {W : Type 0} → StreamClient W → ℕ → W → IncomingFrame → StreamClient W
client_after c sent_at w fr = record c {
  next_app_cid_ = (c.next_app_cid_ + 1) % 2 ^ 32;
  dispatcher_ = answered c.dispatcher_ fr;
  last_outbound_at_ = sent_at;
  world_ = w;
}

on_world-gives :
    {W A : Type 0} (m : Io W A) (c : StreamClient W) (w : W) (a : A)
    → m c.world_ ≡ some (ok a, w)
    → on_world m c ≡ some (ok a, record c { world_ = w })
unfolding on_world
on_world-gives m c w a h = rw (h, on_world) refl

pub transmits :
    {W : Type 0} (t : Transport W) (sent_at : ℕ) (during : List Operation) (frame : Bytes)
    (frame_max p : ℕ) (c : StreamClient W) (w : W)
    → check_outbound_frame_size (length frame - 4) frame_max ≡ ok tt
    → t.write_all frame c.world_ ≡ some (ok tt, w)
    → transmit t sent_at during frame frame_max p c
      ≡ waits t during p (record c { last_outbound_at_ = sent_at; world_ = w })
unfolding transmit from sent writes
transmits t sent_at during frame frame_max p c w fits written =
    let c₁ = record c { last_outbound_at_ = sent_at } in
    starts _ _ c c tt (λ i. some (fits i, c))
    ∙ starts _ _ c c₁ tt refl
    ∙ starts _ _ c₁ (record c₁ { world_ = w }) tt
        (on_world-gives (t.write_all frame) c₁ w tt written)

-- The wait, if the dispatcher resolves the promise meanwhile.
pub waits_resolved :
    {W : Type 0} (t : Transport W) (during : List Operation) (p : ℕ) (c : StreamClient W)
    (d : Dispatcher) (v : Result IncomingFrame)
    → run c.dispatcher_ during ≡ d
    → value_of p d.fulfilled ≡ some v
    → waits t during p c ≡ some (v, record c { dispatcher_ = d })
unfolding waits
waits_resolved t during p c d v h i =
    rw (waits, h, i) (ap (λ x. some (v, record c { dispatcher_ = x })) h)

-- A client that can make the request: its dispatcher is one that operations lead to, the next id is not
-- in use, and the frame is within the limit and is written, which leaves the world `w`.
pub record IsReady {W : Type 0} (t : Transport W) (c : StreamClient W) (w : W) (key version : ℕ)
    (body : Bytes) : Type 0 where
  pub reachable : IsConserved c.dispatcher_
  pub fresh : find c.next_app_cid_ c.dispatcher_.pending_ ≡ none
  pub fits :
      check_outbound_frame_size
        (length (encode_request_frame key version c.next_app_cid_ body) - 4)
        c.negotiated_frame_max_
      ≡ ok tt
  pub written :
      t.write_all (encode_request_frame key version c.next_app_cid_ body) c.world_ ≡ some (ok tt, w)

-- If a client can make a request and the response with its id arrives during the wait, then the request
-- gives that response; the map of pending requests is as it was before, the promise is resolved, the
-- frame is written and the next request has the next id.
pub send_and_wait_answered :
    {W : Type 0} (t : Transport W) (c : StreamClient W) (w : W) (now sent_at key version : ℕ)
    (body : Bytes) (fr : IncomingFrame)
    → IsReady t c w key version body
    → is_response fr.key ≡ true
    → fr.correlation_id ≡ some c.next_app_cid_
    → send_and_wait t now sent_at (dispatches fr ∷ []) key version body c
      ≡ some (ok fr, client_after c sent_at w fr)
unfolding send_and_wait run step
send_and_wait_answered t c w now sent_at key version body fr ready bit its_id =
    let deadline = now + c.cfg_.request_timeout in
    transmits t sent_at (dispatches fr ∷ []) _ _ _ _ w ready.fits ready.written
    ∙ waits_resolved t (dispatches fr ∷ []) _ _ (answered c.dispatcher_ fr) (ok fr)
        (ap (λ q. q.1)
          (dispatch_registered c.next_app_cid_ deadline c.dispatcher_ fr ready.fresh bit its_id))
        (ap (λ q. value_of q.0 (c.dispatcher_.fulfilled ++ (c.dispatcher_.promises, ok fr) ∷ []))
            (register_fresh c.next_app_cid_ deadline c.dispatcher_ ready.fresh)
          ∙ value_of-append c.dispatcher_.promises (ok fr) c.dispatcher_.fulfilled
              (not_made c.dispatcher_ ready.reachable))

-- ===== src/Client/Interleaved.antt =====
-- A request among the operations of other threads.
use rabbitmq_ai.Common.{
  ℕ, ◌+◌, ◌%◌, ◌^◌, ◌≤◌, ◌<◌, ◌≡◌, ◌≢◌, ◌⊎◌, refl, ap, ◌∙◌, inl, inr, true, false, Option, none,
  some, List, [], ◌∷◌, ◌++◌, Bytes, All, ==-self, ne→==-false, Bool-cases, ◌==◌, arith,
}
use rabbitmq_ai.Result.{ok}
use rabbitmq_ai.Frame.{IncomingFrame}
use rabbitmq_ai.Frame.Key.{is_response}
use rabbitmq_ai.Transport.{Transport}
use rabbitmq_ai.Dispatcher.{
  PendingEntry, Pending, Dispatcher, find, register_pending, dispatch_response, dispatch,
}
use rabbitmq_ai.Dispatcher.Steps.{
  Operation, draws_id, registers, dispatches, fails_all, reaps, sets_heartbeat,
  sets_metadata_update, step, run,
}
use rabbitmq_ai.Dispatcher.Conservation.{count, waiting, resolved, IsConserved}
use rabbitmq_ai.Dispatcher.ExactlyOnce.{step-IsConserved}
use rabbitmq_ai.Dispatcher.Routing.{register_fresh}
use rabbitmq_ai.Dispatcher.Requests.{Requests, or_else, keep, without, spec, view, IsDistinct}
use rabbitmq_ai.Dispatcher.Refines.{step-Refines}
use rabbitmq_ai.Client.{StreamClient, value_of, send_and_wait}
use rabbitmq_ai.Client.Requests.{IsReady, value_of-append, transmits, waits_resolved}

-- An operation that does not end the request with this id and deadline: no response to it, no failure
-- of all, no reap at its deadline or later.
abbrev pub LeavesAlone : ℕ → ℕ → Operation → Type 0
LeavesAlone cid deadline (dispatches f) =
    (is_response f.key ≡ false) ⊎ (f.correlation_id ≢ some cid)
LeavesAlone cid deadline (fails_all e) = ⊥
LeavesAlone cid deadline (reaps now) = now < deadline
LeavesAlone cid deadline _ = Unit

without_other :
    (cid : ℕ) (o : Option ℕ) (r : Requests) → o ≢ some cid → (without o r).entry cid ≡ r.entry cid
without_other cid none r n = refl
without_other cid (some c) r n = rw (without, ne→==-false c cid (λ e. n (ap some e))) refl

spec-keeps :
    (cid : ℕ) (e : PendingEntry) (r : Requests) (o : Operation)
    → r.entry cid ≡ some e
    → LeavesAlone cid e.deadline o
    → (spec r o).entry cid ≡ some e
spec-keeps cid e r draws_id h l = h
spec-keeps cid e r (registers c d) h l = rw (spec, h, or_else) refl
spec-keeps cid e r (dispatches f) h (inl b) = rw (spec, b) h
spec-keeps cid e r (dispatches f) h (inr n) = elim (Bool-cases (is_response f.key)) [
  | inl b ↦ rw (spec, b) (without_other cid f.correlation_id r n ∙ h)
  | inr b ↦ rw (spec, b) h
]
spec-keeps cid e r (fails_all x) h l = absurd l
spec-keeps cid e r (reaps now) h l = rw (spec, h, keep) (ground (arith, l))
spec-keeps cid e r (sets_heartbeat x) h l = h
spec-keeps cid e r (sets_metadata_update x) h l = h

-- The request with this id waits in a dispatcher that operations lead to.
record IsWaiting (cid : ℕ) (e : PendingEntry) (d : Dispatcher) : Type 0 where
  conserved : IsConserved d
  distinct : IsDistinct d.pending_
  waits : find cid d.pending_ ≡ some e

step-IsWaiting :
    (cid : ℕ) (e : PendingEntry) (d : Dispatcher) (o : Operation)
    → LeavesAlone cid e.deadline o
    → IsWaiting cid e d
    → IsWaiting cid e (step d o)
step-IsWaiting cid e d o l h =
    let r = step-Refines d o h.distinct in
    record {
      conserved = step-IsConserved d o h.conserved;
      distinct = r.1;
      waits = ap (λ v. v.entry cid) r.0 ∙ spec-keeps cid e (view d) o h.waits l;
    }

run-IsWaiting :
    (cid : ℕ) (e : PendingEntry) (d : Dispatcher) (os : List Operation)
    → All (LeavesAlone cid e.deadline) os
    → IsWaiting cid e d
    → IsWaiting cid e (run d os)
unfolding run
run-IsWaiting cid e d [] l h = h
run-IsWaiting cid e d (o ∷ os) l h =
    run-IsWaiting cid e (step d o) os l.1 (step-IsWaiting cid e d o l.0 h)

run-append :
    (d : Dispatcher) (os : List Operation) (o : Operation)
    → run d (os ++ o ∷ []) ≡ step (run d os) o
unfolding run
run-append d [] o = refl
run-append d (x ∷ os) o = run-append (step d x) os o

count-find :
    (cid : ℕ) (e : PendingEntry) (ps : Pending)
    → find cid ps ≡ some e
    → 1 ≤ count e.promise (waiting ps)
unfolding find
count-find cid e [] h = absurd (cc)
count-find cid e ((k, x) ∷ ps) h = elim (Bool-cases (k == cid)) [
  | inl q ↦ ground (arith, h, q)
  | inr q ↦ omega (arith, count-find cid e ps (ground (arith, h, q)))
]

-- The promise of a request that waits is not resolved yet.
not_resolved :
    (cid : ℕ) (e : PendingEntry) (d : Dispatcher)
    → IsWaiting cid e d
    → count e.promise (resolved d.fulfilled) ≡ 0
not_resolved cid e d h = ground (arith, h.conserved e.promise, count-find cid e d.pending_ h.waits)

answers :
    (cid : ℕ) (e : PendingEntry) (d : Dispatcher) (fr : IncomingFrame)
    → is_response fr.key ≡ true
    → fr.correlation_id ≡ some cid
    → IsWaiting cid e d
    → value_of e.promise (step d (dispatches fr)).fulfilled ≡ some (ok fr)
unfolding step dispatch dispatch_response
answers cid e d fr bit its_id h =
    let logged : (dispatch fr d).1.fulfilled ≡ d.fulfilled ++ (e.promise, ok fr) ∷ [] =
      rw (dispatch, bit, dispatch_response, its_id, h.waits)
        (ap (λ o. d.fulfilled ++ (e.promise, ok (record fr { correlation_id = o })) ∷ []) its_id) in
    ap (value_of e.promise) logged
    ∙ value_of-append e.promise (ok fr) d.fulfilled (not_resolved cid e d h)

abbrev pub entry_of : ℕ → Dispatcher → PendingEntry
entry_of deadline d = record { promise = d.promises; deadline = deadline }

registered-IsWaiting :
    (cid deadline : ℕ) (d : Dispatcher)
    → find cid d.pending_ ≡ none
    → IsConserved d
    → IsDistinct d.pending_
    → IsWaiting cid (entry_of deadline d) (register_pending cid deadline d).1
unfolding step
registered-IsWaiting cid deadline d fresh c u =
    let r = step-Refines d (registers cid deadline) u in
    record {
      conserved = step-IsConserved d (registers cid deadline) c;
      distinct = r.1;
      waits = ap (λ v. v.entry cid) r.0 ∙ rw (spec, fresh, or_else, ==-self cid) refl;
    }

-- If a client can make a request, no id stands twice in its map, and during the wait the other threads
-- make any operations on the dispatcher that leave the request alone (no response to it, no failure of
-- all, no reap at its deadline or later) and then dispatch the response with its id, then the request
-- gives that response.
pub send_and_wait_interleaved :
    {W : Type 0} (t : Transport W) (c : StreamClient W) (w : W) (now sent_at key version : ℕ)
    (body : Bytes) (before : List Operation) (fr : IncomingFrame)
    → IsReady t c w key version body
    → IsDistinct c.dispatcher_.pending_
    → All (LeavesAlone c.next_app_cid_ (now + c.cfg_.request_timeout)) before
    → is_response fr.key ≡ true
    → fr.correlation_id ≡ some c.next_app_cid_
    → let d = (register_pending c.next_app_cid_ (now + c.cfg_.request_timeout) c.dispatcher_).1 in
      send_and_wait t now sent_at (before ++ dispatches fr ∷ []) key version body c
      ≡ some (
        ok fr,
        record c {
          next_app_cid_ = (c.next_app_cid_ + 1) % 2 ^ 32;
          dispatcher_ = run d (before ++ dispatches fr ∷ []);
          last_outbound_at_ = sent_at;
          world_ = w;
        },
      )
unfolding send_and_wait
send_and_wait_interleaved t c w now sent_at key version body before fr ready distinct alone bit
      its_id =
    let cid = c.next_app_cid_ in
    let deadline = now + c.cfg_.request_timeout in
    let e : PendingEntry = entry_of deadline c.dispatcher_ in
    let d : Dispatcher = (register_pending cid deadline c.dispatcher_).1 in
    let waiting =
      registered-IsWaiting cid deadline c.dispatcher_ ready.fresh ready.reachable distinct in
    let later = run-IsWaiting cid e d before alone waiting in
    let mine : (register_pending cid deadline c.dispatcher_).0 ≡ e.promise =
      ap (λ q. q.0) (register_fresh cid deadline c.dispatcher_ ready.fresh) in
    let value : value_of e.promise (run d (before ++ dispatches fr ∷ [])).fulfilled ≡ some (ok fr) =
      ap (λ x. value_of e.promise x.fulfilled) (run-append d before (dispatches fr))
      ∙ answers cid e (run d before) fr bit its_id later in
    transmits t sent_at (before ++ dispatches fr ∷ []) _ _ _ _ w ready.fits ready.written
    ∙ waits_resolved t (before ++ dispatches fr ∷ []) _ _ (run d (before ++ dispatches fr ∷ []))
        (ok fr) refl
        (ap (λ p. value_of p (run d (before ++ dispatches fr ∷ [])).fulfilled) mine ∙ value)

-- ===== src/Dispatcher/ExactlyOnce.antt =====
-- The conservation of promises over every sequence of operations.
use rabbitmq_ai.Common.{ℕ, suc, ◌≡◌, refl, ◌∙◌, List, [], ◌∷◌, ltb, if◌then◌else◌, arith}
use rabbitmq_ai.Frame.{IncomingFrame}
use rabbitmq_ai.Dispatcher.{
  Dispatcher, new_dispatcher, next_correlation_id, register_pending, dispatch_response,
  call_handler, dispatch, fail_all_pending, reap_expired, on_heartbeat, on_metadata_update,
}
use rabbitmq_ai.Dispatcher.Steps.{
  Operation, draws_id, registers, dispatches, fails_all, reaps, sets_heartbeat,
  sets_metadata_update, step, run,
}
use rabbitmq_ai.Dispatcher.Conservation.{
  places, IsConserved, new_dispatcher-IsConserved, register_pending-places, dispatch-places,
  fail_all_pending-places, reap_expired-places,
}

promises-register_pending :
    (cid deadline : ℕ) (d : Dispatcher)
    → (register_pending cid deadline d).1.promises ≡ suc d.promises
unfolding register_pending
promises-register_pending cid deadline d = ground arith

promises-dispatch_response :
    (frame : IncomingFrame) (d : Dispatcher) → (dispatch_response frame d).1.promises ≡ d.promises
unfolding dispatch_response
promises-dispatch_response frame d = ground arith

promises-dispatch :
    (frame : IncomingFrame) (d : Dispatcher) → (dispatch frame d).1.promises ≡ d.promises
unfolding dispatch call_handler
promises-dispatch frame d = ground (arith, promises-dispatch_response frame d)

-- An operation that makes no promise and moves none out of sight.
kept :
    (d d' : Dispatcher)
    → d'.promises ≡ d.promises
    → ((p : ℕ) → places d' p ≡ places d p)
    → IsConserved d
    → IsConserved d'
kept d d' e h c p = rw e (h p ∙ c p)

pub step-IsConserved : (d : Dispatcher) (o : Operation) → IsConserved d → IsConserved (step d o)
unfolding step
step-IsConserved d draws_id c = unfold next_correlation_id in c
step-IsConserved d (registers cid deadline) c = λ p.
    ground (
      arith,
      register_pending-places cid deadline d p,
      promises-register_pending cid deadline d,
      c p,
    )
step-IsConserved d (dispatches frame) c =
    kept d (dispatch frame d).1 (promises-dispatch frame d) (dispatch-places frame d) c
step-IsConserved d (fails_all e) c =
    kept d (fail_all_pending e d) (unfold fail_all_pending in refl) (fail_all_pending-places e d) c
step-IsConserved d (reaps now) c =
    kept d (reap_expired now d).1 (unfold reap_expired in refl) (reap_expired-places now d) c
step-IsConserved d (sets_heartbeat h) c = unfold on_heartbeat in c
step-IsConserved d (sets_metadata_update h) c = unfold on_metadata_update in c

run-IsConserved : (d : Dispatcher) (os : List Operation) → IsConserved d → IsConserved (run d os)
unfolding run
run-IsConserved d [] c = c
run-IsConserved d (o ∷ os) c = run-IsConserved (step d o) os (step-IsConserved d o c)

-- After any sequence of operations on a new dispatcher, each promise made so far stands in exactly one
-- place and once: in an entry of the pending map, in the log of fulfilled promises, or among those
-- broken by a second registration of an id in use. A promise not yet made stands nowhere. So no
-- promise is fulfilled twice and none is lost.
pub run-exactly_once :
    (os : List Operation) (p : ℕ)
    → places (run new_dispatcher os) p ≡ (if ltb p (run new_dispatcher os).promises then 1 else 0)
run-exactly_once os = run-IsConserved new_dispatcher os new_dispatcher-IsConserved

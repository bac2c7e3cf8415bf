-- ===== src/Dispatcher/Refines.antt =====
-- The dispatcher implements the map of requests, in every order of its operations.
use rabbitmq_ai.Common.{
  ℕ, ◌≡◌, refl, sym, ap, ap₂, ◌∙◌, fun_ext, inl, inr, Bool, true, false, Option, none, some, List,
  [], ◌∷◌, ◌==◌, if◌then◌else◌, Option-cases, Bool-cases, ==→eq,
}
use rabbitmq_ai.Frame.{IncomingFrame}
use rabbitmq_ai.Frame.Key.{is_response}
use rabbitmq_ai.Dispatcher.{
  PendingEntry, Pending, Dispatcher, new_dispatcher, next_correlation_id, find, register_pending,
  dispatch_response, call_handler, dispatch, fail_all_pending, reap_expired, on_heartbeat,
  on_metadata_update,
}
use rabbitmq_ai.Dispatcher.Steps.{
  Operation, draws_id, registers, dispatches, fails_all, reaps, sets_heartbeat,
  sets_metadata_update, step, run,
}
use rabbitmq_ai.Dispatcher.Routing.{register_fresh}
use rabbitmq_ai.Dispatcher.Requests.{
  Requests, no_requests, or_else, without, spec, spec_run, view, IsDistinct, find-append,
  IsDistinct-append, find-erase, IsDistinct-erase, find-unexpired-keep, IsDistinct-unexpired,
}

same_requests : (r r' : Requests) → ((k : ℕ) → r.entry k ≡ r'.entry k) → r.made ≡ r'.made → r ≡ r'
same_requests r r' h e = ap₂ (λ f n. record { entry = f; made = n }) (fun_ext h) e

-- One operation does what is specified, and keeps the ids apart.
abbrev pub Refines : Dispatcher → Dispatcher → Requests → Type 0
Refines d d' r = (view d' ≡ r) × IsDistinct d'.pending_

or_else-none : (o : Option PendingEntry) → o ≡ or_else o none
or_else-none none = refl
or_else-none (some x) = refl

in_use :
    (x : PendingEntry) (k cid : ℕ) (e : PendingEntry) (ps : Pending)
    → find cid ps ≡ some x
    → find k ps ≡ or_else (find k ps) (if cid == k then some e else none)
in_use x k cid e ps h = elim (Bool-cases (cid == k)) [
  | inl q ↦
      let here : find k ps ≡ some x = ap (λ n. find n ps) (sym (==→eq cid k q)) ∙ h in
      rw (q, here, or_else) refl
  | inr q ↦ rw q (or_else-none (find k ps))
]

register-Refines :
    (cid deadline : ℕ) (d : Dispatcher)
    → IsDistinct d.pending_
    → Refines d (register_pending cid deadline d).1 (spec (view d) (registers cid deadline))
unfolding register_pending find
register-Refines cid deadline d u = elim (Option-cases (find cid d.pending_)) [
  | inl e ↦
      rw (register_fresh cid deadline d e, Refines)
        (
          same_requests _ _ (λ k. find-append k cid _ d.pending_) refl,
          IsDistinct-append cid _ d.pending_ e u,
        )
  | inr (x, e) ↦
      rw (Refines, e, register_pending)
        (same_requests _ _ (λ k. in_use x k cid _ d.pending_ e) refl, u)
]

absent :
    (k cid : ℕ) (ps : Pending)
    → find cid ps ≡ none
    → find k ps ≡ (if cid == k then none else find k ps)
absent k cid ps h = elim (Bool-cases (cid == k)) [
  | inl q ↦ rw q (ap (λ n. find n ps) (sym (==→eq cid k q)) ∙ h)
  | inr q ↦ rw q refl
]

dispatch_response-Refines :
    (frame : IncomingFrame) (d : Dispatcher)
    → IsDistinct d.pending_
    → Refines d (dispatch_response frame d).1 (without frame.correlation_id (view d))
unfolding dispatch_response
dispatch_response-Refines frame d u = elim (Option-cases frame.correlation_id) [
  | inl e ↦ rw (Refines, e, dispatch_response) (refl, u)
  | inr (cid, e) ↦ elim (Option-cases (find cid d.pending_)) [
    | inl f ↦
        rw (Refines, e, f, dispatch_response)
          (same_requests _ _ (λ k. absent k cid d.pending_ f) refl, u)
    | inr (x, f) ↦
        rw (Refines, e, f, dispatch_response)
          (
            same_requests _ _ (λ k. find-erase k cid d.pending_ u) refl,
            IsDistinct-erase cid d.pending_ u,
          )
  ]
]

call_handler-Refines :
    (b : Bool) (h : Option ℕ) (frame : IncomingFrame) (d : Dispatcher) (q : Bool × Dispatcher)
    → IsDistinct d.pending_
    → Refines d q.1 (view d)
    → Refines d (call_handler b h frame d q).1 (view d)
unfolding call_handler find
call_handler-Refines b none frame d q u r = r
call_handler-Refines true (some h) frame d q u r = (refl, u)
call_handler-Refines false (some h) frame d q u r = r

dispatch-Refines :
    (frame : IncomingFrame) (d : Dispatcher)
    → IsDistinct d.pending_
    → Refines d (dispatch frame d).1 (spec (view d) (dispatches frame))
unfolding dispatch
dispatch-Refines frame d u = elim (Bool-cases (is_response frame.key)) [
  | inl b ↦ rw (Refines, b, dispatch) (dispatch_response-Refines frame d u)
  | inr b ↦
      rw (b, dispatch, spec)
        (call_handler-Refines _ d.on_heartbeat_ frame d _ u
          (call_handler-Refines _ d.on_metadata_update_ frame d (false, d) u (refl, u)))
]

pub step-Refines :
    (d : Dispatcher) (o : Operation)
    → IsDistinct d.pending_
    → Refines d (step d o) (spec (view d) o)
unfolding step next_correlation_id fail_all_pending reap_expired on_heartbeat on_metadata_update
    find
step-Refines d draws_id u = (refl, u)
step-Refines d (registers cid deadline) u = register-Refines cid deadline d u
step-Refines d (dispatches frame) u = dispatch-Refines frame d u
step-Refines d (fails_all e) u = (refl, tt)
step-Refines d (reaps now) u = (
  same_requests _ _ (λ k. find-unexpired-keep k now d.pending_ u) refl,
  IsDistinct-unexpired now d.pending_ u,
)
step-Refines d (sets_heartbeat h) u = (refl, u)
step-Refines d (sets_metadata_update h) u = (refl, u)

run-step :
    (d : Dispatcher) (r : Requests) (os : List Operation)
    → view d ≡ r
    → IsDistinct d.pending_
    → view (run d os) ≡ spec_run r os
unfolding run
run-step d r [] e u = e
run-step d r (o ∷ os) e u =
    let (v, u') = step-Refines d o u in
    run-step (step d o) (spec r o) os (v ∙ ap (λ x. spec x o) e) u'

-- In every order of the operations that threads make on a new dispatcher, the requests that wait, by
-- id, are those of the map on which each operation does what is specified: an id in use keeps its
-- request, a response takes out the request of its id, a failure takes out all, and a reap those that
-- are due.
pub run-Refines : (os : List Operation) → view (run new_dispatcher os) ≡ spec_run no_requests os
unfolding new_dispatcher find
run-Refines os = run-step new_dispatcher no_requests os refl tt

-- ===== src/Examples/Routes.antt =====
-- The dispatcher at concrete inputs.
use rabbitmq_ai.Common.{
  ◌+◌, ◌≡◌, refl, some, none, true, false, List, [], ◌∷◌, ◌++◌, arith, length, All, Has, here, ℕ,
  ltb, if◌then◌else◌,
}
use rabbitmq_ai.Result.{ok, err}
use rabbitmq_ai.Frame.{IncomingFrame}
use rabbitmq_ai.Frame.Key.{is_response}
use rabbitmq_ai.Dispatcher.{
  PendingEntry, Dispatcher, new_dispatcher, find, register_pending, dispatch, reap_expired,
}
use rabbitmq_ai.Dispatcher.Steps.{Operation, registers, dispatches, reaps, run}
use rabbitmq_ai.Dispatcher.Conservation.{places}
use rabbitmq_ai.Dispatcher.ExactlyOnce.{run-exactly_once}
use rabbitmq_ai.Dispatcher.Requests.{no_requests, view, spec_run}
use rabbitmq_ai.Dispatcher.Refines.{run-Refines}
use rabbitmq_ai.Dispatcher.Routing.{
  request_timeout, response_once, response_too_late, IsAhead, IsReaped, reap_expired-IsReaped,
}

-- A CreateResponse for id 7.
abbrev answer : IncomingFrame
answer = record { key = 0x800D; version = 1; body = 0 ∷ 1 ∷ []; correlation_id = some 7 }

abbrev beat : IncomingFrame
beat = record { key = 0x17; version = 1; body = []; correlation_id = none }

abbrev trace : List Operation
trace = registers 7 100 ∷ registers 8 50 ∷ dispatches answer ∷ reaps 60 ∷ dispatches answer ∷ []

run-exactly_once_example :
    places (run new_dispatcher trace) 0
    ≡ (if ltb 0 (run new_dispatcher trace).promises then 1 else 0)
run-exactly_once_example = run-exactly_once trace 0

response_once_example :
    let d₁ = (register_pending 7 100 new_dispatcher).1 in
    let d₂ = (dispatch answer d₁).1 in
    ((dispatch answer d₁).0 ≡ true)
    × (d₂.pending_ ≡ new_dispatcher.pending_)
    × (d₂.fulfilled
        ≡ new_dispatcher.fulfilled ++ ((register_pending 7 100 new_dispatcher).0, ok answer) ∷ [])
    × (dispatch answer d₂ ≡ (false, d₂))
response_once_example =
    response_once 7 100 new_dispatcher answer (unfold find new_dispatcher in refl)
      (unfold is_response in refl) refl

response_too_late_example :
    let d₁ = (register_pending 7 100 new_dispatcher).1 in
    let d₂ = (reap_expired 100 d₁).1 in
    Has ((register_pending 7 100 new_dispatcher).0, err request_timeout) d₂.fulfilled
    × (find 7 d₂.pending_ ≡ none)
    × (dispatch answer d₂ ≡ (false, d₂))
response_too_late_example =
    response_too_late 7 100 new_dispatcher answer (unfold find new_dispatcher in refl)
      (unfold is_response in refl) refl 100 (omega arith)

abbrev two_waiting : Dispatcher
two_waiting = (register_pending 8 100 (register_pending 7 50 new_dispatcher).1).1

abbrev due : ℕ × PendingEntry
due = (7, record { promise = 0; deadline = 50 })

due-waiting : Has due two_waiting.pending_
unfolding register_pending new_dispatcher find
due-waiting = here refl

reap_expired-IsReaped_example :
    let d₂ = (reap_expired 60 two_waiting).1 in
    IsReaped 60 due d₂
    × All (IsAhead 60) d₂.pending_
    × (length d₂.pending_ + (reap_expired 60 two_waiting).0 ≡ length two_waiting.pending_)
    × (length d₂.fulfilled ≡ length two_waiting.fulfilled + (reap_expired 60 two_waiting).0)
reap_expired-IsReaped_example = reap_expired-IsReaped 60 two_waiting due due-waiting

run-Refines_example : view (run new_dispatcher trace) ≡ spec_run no_requests trace
run-Refines_example = run-Refines trace

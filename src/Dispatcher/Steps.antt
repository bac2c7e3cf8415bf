-- ===== src/Dispatcher/Steps.antt =====
-- The operations as steps, for every order in which the threads of a client can make them.
use rabbitmq_ai.Common.{ℕ, List, [], ◌∷◌}
use rabbitmq_ai.Errors.{StreamError}
use rabbitmq_ai.Frame.{IncomingFrame}
use rabbitmq_ai.Dispatcher.{
  Dispatcher, next_correlation_id, register_pending, dispatch, fail_all_pending, reap_expired,
  on_heartbeat, on_metadata_update,
}

pub data Operation : Type 0 where
  draws_id : Operation
  registers : ℕ → ℕ → Operation
  dispatches : IncomingFrame → Operation
  fails_all : StreamError → Operation
  reaps : ℕ → Operation
  sets_heartbeat sets_metadata_update : ℕ → Operation

unfoldable pub step : Dispatcher → Operation → Dispatcher
step d draws_id = (next_correlation_id d).1
step d (registers cid deadline) = (register_pending cid deadline d).1
step d (dispatches frame) = (dispatch frame d).1
step d (fails_all e) = fail_all_pending e d
step d (reaps now) = (reap_expired now d).1
step d (sets_heartbeat h) = on_heartbeat h d
step d (sets_metadata_update h) = on_metadata_update h d

unfoldable pub run : Dispatcher → List Operation → Dispatcher
run d [] = d
run d (o ∷ os) = run (step d o) os

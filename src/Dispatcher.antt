-- ===== src/Dispatcher.antt =====
-- src/dispatcher.cpp, include/stream/dispatcher.hpp: correlation ids, pending requests, routing.
-- A promise is named by a number; `fulfilled` logs the `set_value` calls, `broken` the promises that
-- were destroyed without one, `calls` the calls of one-way handlers. The order in which an
-- unordered_map is walked shows in those logs only; here it is the order of registration. Each
-- operation holds the mutex while it touches `pending_`, so a thread schedule is a list of operations.
pub mod Steps
pub mod Conservation
pub mod ExactlyOnce
pub mod Routing
pub mod Requests
pub mod Refines
use rabbitmq_ai.Common.{
  ℕ, suc, ◌+◌, ◌%◌, ◌^◌, Bool, true, false, ◌&&◌, Option, none, some, List, [], ◌∷◌, ◌++◌, map, leb,
  ltb, ◌==◌, if◌then◌else◌, text, length,
}
use rabbitmq_ai.Errors.{Kind, StreamError, stream_error}
use rabbitmq_ai.Result.{Result, ok, err}
use rabbitmq_ai.Frame.{IncomingFrame}
use rabbitmq_ai.Frame.Key
use rabbitmq_ai.Frame.Key.{is_response, request_of}

pub record PendingEntry : Type 0 where
  pub promise : ℕ
  pub deadline : ℕ

-- The map from correlation ids to entries.
abbrev pub Pending : Type 0
Pending = List (ℕ × PendingEntry)

pub record Dispatcher : Type 0 where
  pub next_id_ : ℕ
  pub pending_ : Pending
  pub on_heartbeat_ : Option ℕ
  pub on_metadata_update_ : Option ℕ
  pub promises : ℕ
  pub fulfilled : List (ℕ × Result IncomingFrame)
  pub broken : List ℕ
  pub calls : List (ℕ × IncomingFrame)

unfoldable pub new_dispatcher : Dispatcher
new_dispatcher = record {
  next_id_ = 1;
  pending_ = [];
  on_heartbeat_ = none;
  on_metadata_update_ = none;
  promises = 0;
  fulfilled = [];
  broken = [];
  calls = [];
}

-- `next_id_.fetch_add(1)` on a 32-bit counter.
unfoldable pub next_correlation_id : Dispatcher → ℕ × Dispatcher
next_correlation_id d = (d.next_id_, record d { next_id_ = (d.next_id_ + 1) % 2 ^ 32 })

unfoldable pub find : ℕ → Pending → Option PendingEntry
find cid [] = none
find cid ((k, e) ∷ ps) = if k == cid then some e else find cid ps

unfoldable pub erase : ℕ → Pending → Pending
erase cid [] = []
erase cid ((k, e) ∷ ps) = if k == cid then ps else (k, e) ∷ erase cid ps

-- `emplace` inserts nothing where the key is taken: the new entry is then destroyed, and its promise
-- with it. The result names the promise whose future is handed out.
unfoldable pub register_pending : ℕ → ℕ → Dispatcher → ℕ × Dispatcher
register_pending correlation_id deadline d =
    let p = d.promises in
    let entry : PendingEntry = record { promise = p; deadline = deadline } in
    elim (find correlation_id d.pending_) [
      | none ↦
          (p, record d { promises = suc p; pending_ = d.pending_ ++ (correlation_id, entry) ∷ [] })
      | some _ ↦ (p, record d { promises = suc p; broken = d.broken ++ p ∷ [] })
    ]

-- `promise.set_value(...)`
abbrev pub set_value : ℕ → Result IncomingFrame → Dispatcher → Dispatcher
set_value p v d = record d { fulfilled = d.fulfilled ++ (p, v) ∷ [] }

unfoldable pub dispatch_response : IncomingFrame → Dispatcher → Bool × Dispatcher
dispatch_response frame d = elim frame.correlation_id [
  | none ↦ (false, d)
  | some cid ↦ elim (find cid d.pending_) [
    | none ↦ (false, d)
    | some e ↦ (true, set_value e.promise (ok frame) (record d { pending_ = erase cid d.pending_ }))
  ]
]

-- `if (kind == key && handler) { handler(frame); return true; }`, else `otherwise`.
unfoldable pub call_handler :
    Bool → Option ℕ → IncomingFrame → Dispatcher → Bool × Dispatcher → Bool × Dispatcher
call_handler b none frame d otherwise = otherwise
call_handler b (some h) frame d otherwise =
    if b then (true, record d { calls = d.calls ++ (h, frame) ∷ [] }) else otherwise

unfoldable pub dispatch : IncomingFrame → Dispatcher → Bool × Dispatcher
dispatch frame d =
    let kind = request_of frame.key in
    if is_response frame.key
    then dispatch_response frame d
    else call_handler (kind == Key.heartbeat) d.on_heartbeat_ frame d
        (call_handler (kind == Key.metadata_update) d.on_metadata_update_ frame d (false, d))

-- Every entry of `ps` is resolved with the error.
abbrev pub resolve_all : StreamError → Pending → List (ℕ × Result IncomingFrame)
resolve_all e ps = map (λ kv. (kv.1.promise, err e)) ps

unfoldable pub fail_all_pending : StreamError → Dispatcher → Dispatcher
fail_all_pending e d = record d {
  pending_ = [];
  fulfilled = d.fulfilled ++ resolve_all e d.pending_;
}

-- The walk of `reap_expired`: the entries that stay, and those that it moves out.
unfoldable pub reap_walk : ℕ → Pending → Pending × Pending
reap_walk now [] = ([], [])
reap_walk now ((k, e) ∷ ps) =
    let rest = reap_walk now ps in
    if leb e.deadline now then (rest.0, (k, e) ∷ rest.1) else ((k, e) ∷ rest.0, rest.1)

-- Its two results.
abbrev pub unexpired : ℕ → Pending → Pending
unexpired now ps = (reap_walk now ps).0

abbrev pub expired : ℕ → Pending → Pending
expired now ps = (reap_walk now ps).1

abbrev pub timed_out : StreamError
timed_out = stream_error Kind.request_timeout (text "request timed out")

unfoldable pub reap_expired : ℕ → Dispatcher → ℕ × Dispatcher
reap_expired now d =
    let (stays, gone) = reap_walk now d.pending_ in
    (
      length gone,
      record d { pending_ = stays; fulfilled = d.fulfilled ++ resolve_all timed_out gone },
    )

unfoldable pub on_heartbeat : ℕ → Dispatcher → Dispatcher
on_heartbeat h d = record d { on_heartbeat_ = some h }

unfoldable pub on_metadata_update : ℕ → Dispatcher → Dispatcher
on_metadata_update h d = record d { on_metadata_update_ = some h }

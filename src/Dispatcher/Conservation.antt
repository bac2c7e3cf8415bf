-- ===== src/Dispatcher/Conservation.antt =====
-- Every promise is resolved at most once, and none is lost.
use rabbitmq_ai.Common.{
  ℕ, ◌+◌, ◌≡◌, refl, inl, inr, Bool, true, false, Option, none, some, List, [], ◌∷◌, ◌++◌, map, ltb,
  ◌==◌, if◌then◌else◌, arith, Bool-cases, Option-cases,
}
use rabbitmq_ai.Errors.{StreamError}
use rabbitmq_ai.Result.{Result, ok}
use rabbitmq_ai.Frame.{IncomingFrame}
use rabbitmq_ai.Frame.Key.{is_response}
use rabbitmq_ai.Dispatcher.{
  reap_walk, PendingEntry, Pending, Dispatcher, new_dispatcher, find, erase, register_pending,
  dispatch_response, call_handler, dispatch, resolve_all, fail_all_pending, unexpired, expired,
  timed_out, reap_expired,
}

-- How often the promise `p` stands in each place.
abbrev pub count : ℕ → List ℕ → ℕ
count p [] = 0
count p (x ∷ xs) = (if x == p then 1 else 0) + count p xs

abbrev pub waiting : Pending → List ℕ
waiting ps = map (λ kv. kv.1.promise) ps

abbrev pub resolved : List (ℕ × Result IncomingFrame) → List ℕ
resolved fs = map (λ f. f.0) fs

-- Where the promise `p` stands: waiting in the map, resolved, or broken.
abbrev pub places : Dispatcher → ℕ → ℕ
places d p = count p (waiting d.pending_) + count p (resolved d.fulfilled) + count p d.broken

count-append : (p : ℕ) (xs ys : List ℕ) → count p (xs ++ ys) ≡ count p xs + count p ys
count-append p [] ys = omega arith
count-append p (x ∷ xs) ys = omega (arith, count-append p xs ys)

count-resolved-append :
    (p : ℕ) (fs gs : List (ℕ × Result IncomingFrame))
    → count p (resolved (fs ++ gs)) ≡ count p (resolved fs) + count p (resolved gs)
count-resolved-append p [] gs = omega arith
count-resolved-append p (f ∷ fs) gs = omega (arith, count-resolved-append p fs gs)

count-waiting-append :
    (p : ℕ) (ps qs : Pending)
    → count p (waiting (ps ++ qs)) ≡ count p (waiting ps) + count p (waiting qs)
count-waiting-append p [] qs = omega arith
count-waiting-append p (f ∷ ps) qs = omega (arith, count-waiting-append p ps qs)

count-resolve_all :
    (p : ℕ) (e : StreamError) (ps : Pending)
    → count p (resolved (resolve_all e ps)) ≡ count p (waiting ps)
count-resolve_all p e [] = refl
count-resolve_all p e (kv ∷ ps) = omega (arith, count-resolve_all p e ps)

count-erase :
    (p cid : ℕ) (ps : Pending) (e : PendingEntry)
    → find cid ps ≡ some e
    → count p (waiting ps) ≡ (if e.promise == p then 1 else 0) + count p (waiting (erase cid ps))
unfolding find erase
count-erase p cid [] e h = cc
count-erase p cid ((k, x) ∷ ps) e h = ground (arith, count-erase p cid ps e)

count-expired :
    (p now : ℕ) (ps : Pending)
    → count p (waiting ps)
      ≡ count p (waiting (unexpired now ps)) + count p (waiting (expired now ps))
unfolding reap_walk
count-expired p now [] = refl
count-expired p now ((k, e) ∷ ps) = ground (arith, count-expired p now ps)

-- Promises made so far stand in one place, others nowhere.
abbrev pub IsConserved : Dispatcher → Type 0
IsConserved d = (p : ℕ) → places d p ≡ (if ltb p d.promises then 1 else 0)

pub new_dispatcher-IsConserved : IsConserved new_dispatcher
unfolding new_dispatcher
new_dispatcher-IsConserved p = ground arith

pub register_pending-places :
    (cid deadline : ℕ) (d : Dispatcher) (p : ℕ)
    → places (register_pending cid deadline d).1 p ≡ places d p + (if d.promises == p then 1 else 0)
unfolding register_pending
register_pending-places cid deadline d p = elim (Option-cases (find cid d.pending_)) [
  | inl e ↦
      rw (e, register_pending)
        (omega (
          arith,
          count-waiting-append p d.pending_
              ((cid, record { promise = d.promises; deadline = deadline }) ∷ []),
        ))
  | inr (x, e) ↦ rw (e, register_pending) (omega (arith, count-append p d.broken (d.promises ∷ [])))
]

dispatch_response-places :
    (frame : IncomingFrame) (d : Dispatcher) (p : ℕ)
    → places (dispatch_response frame d).1 p ≡ places d p
unfolding dispatch_response
dispatch_response-places frame d p = elim (Option-cases frame.correlation_id) [
  | inl e ↦ rw (e, dispatch_response) refl
  | inr (cid, e) ↦ elim (Option-cases (find cid d.pending_)) [
    | inl f ↦ rw (e, f, dispatch_response) refl
    | inr (x, f) ↦
        rw (e, f, dispatch_response)
          (omega (
            arith,
            count-erase p cid d.pending_ x f,
            count-resolved-append p d.fulfilled ((x.promise, ok frame) ∷ []),
          ))
  ]
]

call_handler-places :
    (b : Bool) (h : Option ℕ) (frame : IncomingFrame) (d : Dispatcher) (q : Bool × Dispatcher)
    (p : ℕ)
    → places q.1 p ≡ places d p
    → places (call_handler b h frame d q).1 p ≡ places d p
unfolding call_handler
call_handler-places b none frame d q p e = e
call_handler-places true (some h) frame d q p e = refl
call_handler-places false (some h) frame d q p e = e

pub dispatch-places :
    (frame : IncomingFrame) (d : Dispatcher) (p : ℕ) → places (dispatch frame d).1 p ≡ places d p
unfolding dispatch
dispatch-places frame d p = elim (Bool-cases (is_response frame.key)) [
  | inl yes' ↦ rw yes' (dispatch_response-places frame d p)
  | inr no' ↦ rw no' (
      call_handler-places _ d.on_heartbeat_ frame d _ p
        (call_handler-places _ d.on_metadata_update_ frame d (false, d) p refl))
]

pub fail_all_pending-places :
    (e : StreamError) (d : Dispatcher) (p : ℕ) → places (fail_all_pending e d) p ≡ places d p
unfolding fail_all_pending
fail_all_pending-places e d p = omega (
  arith,
  count-resolved-append p d.fulfilled (resolve_all e d.pending_),
  count-resolve_all p e d.pending_,
)

pub reap_expired-places :
    (now : ℕ) (d : Dispatcher) (p : ℕ) → places (reap_expired now d).1 p ≡ places d p
unfolding reap_expired
reap_expired-places now d p = omega (
  arith,
  count-resolved-append p d.fulfilled (resolve_all timed_out (expired now d.pending_)),
  count-resolve_all p timed_out (expired now d.pending_),
  count-expired p now d.pending_,
)

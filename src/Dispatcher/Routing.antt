-- ===== src/Dispatcher/Routing.antt =====
-- Who gets which frame.
use rabbitmq_ai.Common.{
  ℕ, suc, ◌+◌, ◌<◌, ◌≤◌, ◌≡◌, ◌≢◌, refl, sym, ap, subst, ◌⊎◌, text, leb, Bool-cases, ◌∙◌, inl, inr,
  [], ◌∷◌, ◌++◌, true, false, some, none, arith, Option-cases, All, Has, here, there,
  Has-append_right, length, length-append,
}
use rabbitmq_ai.Errors.{Kind, StreamError, stream_error}
use rabbitmq_ai.Result.{ok, err}
use rabbitmq_ai.Frame.{IncomingFrame}
use rabbitmq_ai.Frame.Key.{is_response}
use rabbitmq_ai.Dispatcher.{
  reap_walk, PendingEntry, Pending, Dispatcher, find, erase, register_pending, dispatch_response,
  call_handler, dispatch, unexpired, expired, timed_out, resolve_all, reap_expired,
}

module _ (cid : ℕ) (e : PendingEntry) where
  find-append_fresh : (ps : Pending) → find cid ps ≡ none → find cid (ps ++ (cid, e) ∷ []) ≡ some e
  unfolding find
  find-append_fresh [] h = ground arith
  find-append_fresh ((k, x) ∷ ps) h = ground (arith, find-append_fresh ps)

  erase-append_fresh : (ps : Pending) → find cid ps ≡ none → erase cid (ps ++ (cid, e) ∷ []) ≡ ps
  unfolding find erase
  erase-append_fresh [] h = ground arith
  erase-append_fresh ((k, x) ∷ ps) h = ground (arith, erase-append_fresh ps)

  unexpired-append :
      (now : ℕ) (ps : Pending)
      → e.deadline ≤ now
      → unexpired now (ps ++ (cid, e) ∷ []) ≡ unexpired now ps
  unfolding reap_walk
  unexpired-append now [] h = ground arith
  unexpired-append now ((k, x) ∷ ps) h = ground (arith, unexpired-append now ps h)

  expired-append :
      (now : ℕ) (ps : Pending)
      → e.deadline ≤ now
      → expired now (ps ++ (cid, e) ∷ []) ≡ expired now ps ++ (cid, e) ∷ []
  unfolding reap_walk
  expired-append now [] h = ground arith
  expired-append now ((k, x) ∷ ps) h = ground (arith, expired-append now ps h)

find-unexpired :
    (cid now : ℕ) (ps : Pending) → find cid ps ≡ none → find cid (unexpired now ps) ≡ none
unfolding find reap_walk
find-unexpired cid now [] h = refl
find-unexpired cid now ((k, x) ∷ ps) h = ground (arith, find-unexpired cid now ps)

find-erase_ne :
    (cid other : ℕ) (ps : Pending) → cid ≢ other → find other (erase cid ps) ≡ find other ps
unfolding find erase
find-erase_ne cid other [] h = refl
find-erase_ne cid other ((k, x) ∷ ps) h = ground (arith, find-erase_ne cid other ps h)

pub register_fresh :
    (cid deadline : ℕ) (d : Dispatcher)
    → find cid d.pending_ ≡ none
    → register_pending cid deadline d ≡ (
      d.promises,
      record d {
        promises = suc d.promises;
        pending_ = d.pending_ ++ (cid, record { promise = d.promises; deadline = deadline }) ∷ [];
      },
    )
unfolding register_pending
register_fresh cid deadline d h = rw (h, register_pending) refl

-- The error of a request whose deadline has passed.
abbrev pub request_timeout : StreamError
request_timeout = stream_error Kind.request_timeout (text "request timed out")

resolved-last :
    (ps : Pending) (cid : ℕ) (e : PendingEntry)
    → Has (e.promise, err request_timeout) (resolve_all timed_out (ps ++ (cid, e) ∷ []))
resolved-last [] cid e = here refl
resolved-last (x ∷ ps) cid e = there (resolved-last ps cid e)

module _ (cid deadline : ℕ) (d : Dispatcher) (frame : IncomingFrame)
    (fresh : find cid d.pending_ ≡ none) (bit : is_response frame.key ≡ true)
    (its_id : frame.correlation_id ≡ some cid) where
  abbrev pub entry : PendingEntry
  entry = record { promise = d.promises; deadline = deadline }

  pub dispatch_registered : dispatch frame (register_pending cid deadline d).1 ≡ (
    true,
    record d { promises = suc d.promises; fulfilled = d.fulfilled ++ (d.promises, ok frame) ∷ [] },
  )
  unfolding dispatch dispatch_response
  dispatch_registered = rw (register_fresh cid deadline d fresh) (
      ground (
        arith,
        find-append_fresh cid entry d.pending_ fresh,
        erase-append_fresh cid entry d.pending_ fresh,
      ))

  -- After a request registers an id that is not in use, the first response with that id resolves the
  -- promise of that request, with that frame, takes the entry out and leaves all others as they were;
  -- a second response with the id is refused and changes nothing.
  pub response_once :
      let d₁ = (register_pending cid deadline d).1 in
      let d₂ = (dispatch frame d₁).1 in
      ((dispatch frame d₁).0 ≡ true)
      × (d₂.pending_ ≡ d.pending_)
      × (d₂.fulfilled ≡ d.fulfilled ++ ((register_pending cid deadline d).0, ok frame) ∷ [])
      × (dispatch frame d₂ ≡ (false, d₂))
  unfolding dispatch dispatch_response
  response_once = rw (register_fresh cid deadline d fresh) (
      ground (
        arith,
        find-append_fresh cid entry d.pending_ fresh,
        erase-append_fresh cid entry d.pending_ fresh,
      ))

  -- If the request is reaped first, at its deadline or later, then its promise is resolved with
  -- RequestTimeout, its id is free again, and the response that comes after is refused and changes
  -- nothing.
  pub response_too_late :
      (now : ℕ)
      → deadline ≤ now
      → let d₁ = (register_pending cid deadline d).1 in
        let d₂ = (reap_expired now d₁).1 in
        Has ((register_pending cid deadline d).0, err request_timeout) d₂.fulfilled
        × (find cid d₂.pending_ ≡ none)
        × (dispatch frame d₂ ≡ (false, d₂))
  unfolding dispatch dispatch_response reap_expired
  response_too_late now late = rw (register_fresh cid deadline d fresh) (
    Has-append_right d.fulfilled (
        subst (λ ps. Has (d.promises, err request_timeout) (resolve_all timed_out ps))
          (sym (expired-append cid entry now d.pending_ late))
          (resolved-last (expired now d.pending_) cid entry)),
    ground (
      arith,
      unexpired-append cid entry now d.pending_ late,
      find-unexpired cid now d.pending_ fresh,
    ),
    ground (
      arith,
      unexpired-append cid entry now d.pending_ late,
      find-unexpired cid now d.pending_ fresh,
    ),
  )

dispatch_response-others :
    (frame : IncomingFrame) (d : Dispatcher) (other : ℕ)
    → frame.correlation_id ≢ some other
    → find other (dispatch_response frame d).1.pending_ ≡ find other d.pending_
unfolding dispatch_response
dispatch_response-others frame d other h = elim (Option-cases frame.correlation_id) [
  | inl e ↦ rw (e, dispatch_response) refl
  | inr (cid, e) ↦ elim (Option-cases (find cid d.pending_)) [
    | inl f ↦ rw (e, f, dispatch_response) refl
    | inr (x, f) ↦
        rw (e, f, dispatch_response)
          (find-erase_ne cid other d.pending_ (λ same. h (e ∙ ap some same)))
  ]
]

-- Dispatching a frame, whatever it is, leaves the entry of every id in place but the one that the
-- frame carries.
pub dispatch-others :
    (frame : IncomingFrame) (d : Dispatcher) (other : ℕ)
    → frame.correlation_id ≢ some other
    → find other (dispatch frame d).1.pending_ ≡ find other d.pending_
unfolding dispatch call_handler
dispatch-others frame d other h = ground (arith, dispatch_response-others frame d other h)

-- A one-way frame resolves no request: the pending map and the promises stay as they are.
pub dispatch-oneway :
    (frame : IncomingFrame) (d : Dispatcher)
    → is_response frame.key ≡ false
    → ((dispatch frame d).1.pending_ ≡ d.pending_) × ((dispatch frame d).1.fulfilled ≡ d.fulfilled)
unfolding dispatch call_handler
dispatch-oneway frame d h = ground arith

-- Entries that are still ahead of their deadline.
abbrev pub IsAhead : ℕ → ℕ × PendingEntry → Type 0
IsAhead now kv = now < kv.1.deadline

abbrev pub IsDue : ℕ → ℕ × PendingEntry → Type 0
IsDue now kv = kv.1.deadline ≤ now

unexpired-IsAhead : (now : ℕ) (ps : Pending) → All (IsAhead now) (unexpired now ps)
unfolding reap_walk
unexpired-IsAhead now [] = tt
unexpired-IsAhead now ((k, x) ∷ ps) = ground (arith, unexpired-IsAhead now ps)

-- A request that was in the map stays if it is ahead of its deadline, and else its promise is resolved.
abbrev pub IsReaped : ℕ → ℕ × PendingEntry → Dispatcher → Type 0
IsReaped now kv d =
    (IsAhead now kv × Has kv d.pending_)
    ⊎ (IsDue now kv × Has (kv.1.promise, err request_timeout) d.fulfilled)

walked :
    (now : ℕ) (kv : ℕ × PendingEntry) (ps : Pending)
    → Has kv ps
    → (IsAhead now kv × Has kv (unexpired now ps))
      ⊎ (IsDue now kv
          × Has (kv.1.promise, err request_timeout) (resolve_all timed_out (expired now ps)))
unfolding reap_walk
walked now kv [] m = elim m [ ]
walked now kv ((k, x) ∷ ps) (here e) = elim (Bool-cases (leb x.deadline now)) [
  | inl b ↦ inr (
    ground (arith, b, ap (λ q. q.1.deadline) e),
    rw (expired, unexpired, b) (here (ap (λ q. (q.1.promise, err request_timeout)) e)),
  )
  | inr b ↦ inl (ground (arith, b, ap (λ q. q.1.deadline) e), rw (expired, unexpired, b) (here e))
]
walked now kv ((k, x) ∷ ps) (there m) = elim (Bool-cases (leb x.deadline now)) [
  | inl b ↦
      rw (expired, unexpired, b)
        (elim (walked now kv ps m) [ inl q ↦ inl q | inr q ↦ inr (q.0, there q.1) ])
  | inr b ↦
      rw (expired, unexpired, b)
        (elim (walked now kv ps m) [ inl q ↦ inl (q.0, there q.1) | inr q ↦ inr q ])
]

length-expired :
    (now : ℕ) (ps : Pending) → length (unexpired now ps) + length (expired now ps) ≡ length ps
unfolding reap_walk
length-expired now [] = refl
length-expired now ((k, x) ∷ ps) = ground (arith, length-expired now ps)

length-resolved : (ps : Pending) → length (resolve_all timed_out ps) ≡ length ps
length-resolved [] = refl
length-resolved (x ∷ ps) = omega (arith, length-resolved ps)

-- Of the requests in the map, a reap leaves each that is ahead of its deadline and resolves the promise
-- of each other with RequestTimeout; none that is left is due, the count that it returns is that of the
-- requests that left the map, and it resolves no other promise.
pub reap_expired-IsReaped :
    (now : ℕ) (d : Dispatcher) (kv : ℕ × PendingEntry)
    → Has kv d.pending_
    → let n = (reap_expired now d).0 in
      let d₂ = (reap_expired now d).1 in
      IsReaped now kv d₂
      × All (IsAhead now) d₂.pending_
      × (length d₂.pending_ + n ≡ length d.pending_)
      × (length d₂.fulfilled ≡ length d.fulfilled + n)
unfolding reap_expired
reap_expired-IsReaped now d kv m = (
  elim (walked now kv d.pending_ m) [
    | inl q ↦ inl q
    | inr q ↦ inr (q.0, Has-append_right d.fulfilled q.1)
  ],
  unexpired-IsAhead now d.pending_,
  length-expired now d.pending_,
  length-append d.fulfilled _
      ∙ ap (λ n. length d.fulfilled + n) (length-resolved (expired now d.pending_)),
)

-- ===== src/Dispatcher/Requests.antt =====
-- What the dispatcher promises: a map from ids to requests, without the order of registration.
use rabbitmq_ai.Common.{
  ℕ, suc, ◌≡◌, refl, inl, inr, Option, none, some, List, [], ◌∷◌, ◌++◌, leb, ◌==◌, if◌then◌else◌,
  Bool-cases, arith,
}
use rabbitmq_ai.Frame.Key.{is_response}
use rabbitmq_ai.Dispatcher.{reap_walk, PendingEntry, Pending, Dispatcher, find, erase, unexpired}
use rabbitmq_ai.Dispatcher.Steps.{
  Operation, draws_id, registers, dispatches, fails_all, reaps, sets_heartbeat,
  sets_metadata_update,
}

-- The requests that wait, by id, and how many promises were made.
pub record Requests : Type 0 where
  pub entry : ℕ → Option PendingEntry
  pub made : ℕ

abbrev pub no_requests : Requests
no_requests = record { entry = λ k. none; made = 0 }

-- A first value, or else a second.
abbrev pub or_else : Option PendingEntry → Option PendingEntry → Option PendingEntry
or_else none y = y
or_else (some x) y = some x

-- An entry that is ahead of its deadline.
abbrev pub keep : ℕ → Option PendingEntry → Option PendingEntry
keep now none = none
keep now (some e) = if leb e.deadline now then none else some e

abbrev pub without : Option ℕ → Requests → Requests
without none r = r
without (some cid) r = record r { entry = λ k. if cid == k then none else r.entry k }

-- What each operation is to do: an id in use keeps its request, a response takes out the request of
-- its id, a failure takes out all, and a reap those that are due.
abbrev pub spec : Requests → Operation → Requests
spec r draws_id = r
spec r (registers cid deadline) = record {
  entry = λ k.
      or_else (r.entry k)
        (if cid == k then some (record { promise = r.made; deadline = deadline }) else none);
  made = suc r.made;
}
spec r (dispatches frame) = if is_response frame.key then without frame.correlation_id r else r
spec r (fails_all e) = record r { entry = λ k. none }
spec r (reaps now) = record r { entry = λ k. keep now (r.entry k) }
spec r (sets_heartbeat h) = r
spec r (sets_metadata_update h) = r

abbrev pub spec_run : Requests → List Operation → Requests
spec_run r [] = r
spec_run r (o ∷ os) = spec_run (spec r o) os

abbrev pub view : Dispatcher → Requests
view d = record { entry = λ cid. find cid d.pending_; made = d.promises }

-- No id stands twice.
abbrev pub IsDistinct : Pending → Type 0
IsDistinct [] = Unit
IsDistinct ((k, e) ∷ ps) = (find k ps ≡ none) × IsDistinct ps

pub find-append :
    (k cid : ℕ) (e : PendingEntry) (ps : Pending)
    → find k (ps ++ (cid, e) ∷ []) ≡ or_else (find k ps) (if cid == k then some e else none)
unfolding find
find-append k cid e [] = ground arith
find-append k cid e ((c, x) ∷ ps) = ground (arith, find-append k cid e ps)

pub IsDistinct-append :
    (cid : ℕ) (e : PendingEntry) (ps : Pending)
    → find cid ps ≡ none
    → IsDistinct ps
    → IsDistinct (ps ++ (cid, e) ∷ [])
unfolding find
IsDistinct-append cid e [] h u = (refl, tt)
IsDistinct-append cid e ((c, x) ∷ ps) h u = (
  ground (arith, h, u.0, find-append c cid e ps),
  IsDistinct-append cid e ps (ground (arith, h)) u.1,
)

find-erase-none : (k cid : ℕ) (ps : Pending) → find k ps ≡ none → find k (erase cid ps) ≡ none
unfolding find erase
find-erase-none k cid [] h = refl
find-erase-none k cid ((c, x) ∷ ps) h = ground (arith, h, find-erase-none k cid ps)

pub find-erase :
    (k cid : ℕ) (ps : Pending)
    → IsDistinct ps
    → find k (erase cid ps) ≡ (if cid == k then none else find k ps)
unfolding find erase
find-erase k cid [] u = ground arith
find-erase k cid ((c, x) ∷ ps) u = ground (arith, u.0, find-erase k cid ps u.1)

pub IsDistinct-erase : (cid : ℕ) (ps : Pending) → IsDistinct ps → IsDistinct (erase cid ps)
unfolding erase
IsDistinct-erase cid [] u = tt
IsDistinct-erase cid ((c, x) ∷ ps) u = elim (Bool-cases (c == cid)) [
  | inl e ↦ rw (e, IsDistinct) u.1
  | inr e ↦ rw (e, IsDistinct) (find-erase-none c cid ps u.0, IsDistinct-erase cid ps u.1)
]

find-unexpired-none :
    (k now : ℕ) (ps : Pending) → find k ps ≡ none → find k (unexpired now ps) ≡ none
unfolding find reap_walk
find-unexpired-none k now [] h = refl
find-unexpired-none k now ((c, x) ∷ ps) h = ground (arith, h, find-unexpired-none k now ps)

pub find-unexpired-keep :
    (k now : ℕ) (ps : Pending) → IsDistinct ps → find k (unexpired now ps) ≡ keep now (find k ps)
unfolding find reap_walk
find-unexpired-keep k now [] u = refl
find-unexpired-keep k now ((c, x) ∷ ps) u =
    ground (arith, u.0, find-unexpired-keep k now ps u.1, find-unexpired-none k now ps)

pub IsDistinct-unexpired : (now : ℕ) (ps : Pending) → IsDistinct ps → IsDistinct (unexpired now ps)
unfolding reap_walk
IsDistinct-unexpired now [] u = tt
IsDistinct-unexpired now ((c, x) ∷ ps) u = elim (Bool-cases (leb x.deadline now)) [
  | inl e ↦ rw (e, IsDistinct) (IsDistinct-unexpired now ps u.1)
  | inr e ↦ rw (e, IsDistinct) (find-unexpired-none c now ps u.0, IsDistinct-unexpired now ps u.1)
]

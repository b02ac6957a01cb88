-- ===== src/Pipeline/RequestQueue/Keys.antt =====
-- The invariant of the queue, and what each operation does under it.
use modbus_pp.Common.{
  ℕ, ◌+◌, ◌≤◌, ◌<◌, ◌≡◌, refl, inl, inr, true, false, some, List, [], ◌∷◌, arith, ◌==◌, eq→==,
  Bool-cases, length, All,
}
use modbus_pp.Core.Timestamp.{Timestamp}
use modbus_pp.Pipeline.RequestQueue.{
  PendingRequest, RequestQueue, holds, emplace, is_full, insert, find, erase, remove, has_expired,
  split_expired, remove_expired, cancel,
}

-- No two requests have one id.
abbrev pub HasDistinctIds : List PendingRequest → Type 0
HasDistinctIds [] = Unit
HasDistinctIds (req ∷ pending) = (holds req.id pending ≡ false) × HasDistinctIds pending

pub record IsWellFormed (queue : RequestQueue) : Type 0 where
  pub distinct : HasDistinctIds queue.pending
  pub within : 0 < queue.max_size → length queue.pending ≤ queue.max_size

-- One call of the queue, with what it makes of it.
pub data Step : RequestQueue → RequestQueue → Type 0 where
  inserted : (req : PendingRequest) (queue : RequestQueue) → Step queue (insert req queue).1
  removed : (id : ℕ) (queue : RequestQueue) → Step queue (remove id queue).1
  timed_out : (now : Timestamp) (queue : RequestQueue) → Step queue (remove_expired now queue).1
  cancelled : (id : ℕ) (queue : RequestQueue) → Step queue (cancel id queue).1

pub data Reaches : RequestQueue → RequestQueue → Type 0 where
  start : (queue : RequestQueue) → Reaches queue queue
  next : {a b c : RequestQueue} → Reaches a b → Step b c → Reaches a c

holds-erase :
    (id other : ℕ) (pending : List PendingRequest)
    → holds other pending ≡ false
    → holds other (erase id pending) ≡ false
unfolding erase
holds-erase id other [] h = refl
holds-erase id other (req ∷ pending) h = ground (arith, holds-erase id other pending)

pub erase-HasDistinctIds :
    (id : ℕ) (pending : List PendingRequest)
    → HasDistinctIds pending
    → HasDistinctIds (erase id pending)
unfolding erase
erase-HasDistinctIds id [] h = tt
erase-HasDistinctIds id (req ∷ pending) h =
    let rest = erase-HasDistinctIds id pending h.1 in
    let absent = holds-erase id req.id pending h.0 in
    elim (Bool-cases (req.id == id)) [
      | inl same ↦ rw same h.1
      | inr other ↦ rw other (absent, rest)
    ]

length-erase-le :
    (id : ℕ) (pending : List PendingRequest) → length (erase id pending) ≤ length pending
unfolding erase
length-erase-le id [] = omega arith
length-erase-le id (req ∷ pending) = ground (arith, length-erase-le id pending)

pub holds-split :
    (now : Timestamp) (other : ℕ) (pending : List PendingRequest)
    → holds other pending ≡ false
    → holds other (split_expired now pending).1 ≡ false
unfolding split_expired
holds-split now other [] h = refl
holds-split now other (req ∷ pending) h = ground (arith, holds-split now other pending)

pub split-HasDistinctIds :
    (now : Timestamp) (pending : List PendingRequest)
    → HasDistinctIds pending
    → HasDistinctIds (split_expired now pending).1
unfolding split_expired
split-HasDistinctIds now [] h = tt
split-HasDistinctIds now (req ∷ pending) h =
    let rest = split-HasDistinctIds now pending h.1 in
    let absent = holds-split now req.id pending h.0 in
    elim (Bool-cases (has_expired now req)) [
      | inl late ↦ rw late rest
      | inr timely ↦ rw timely (absent, rest)
    ]

length-split :
    (now : Timestamp) (pending : List PendingRequest)
    → length (split_expired now pending).0 + length (split_expired now pending).1 ≡ length pending
unfolding split_expired
length-split now [] = omega arith
length-split now (req ∷ pending) = ground (arith, length-split now pending)

insert-IsWellFormed :
    (req : PendingRequest) (queue : RequestQueue)
    → IsWellFormed queue
    → IsWellFormed (insert req queue).1
unfolding insert emplace
insert-IsWellFormed req queue h = elim (Bool-cases (is_full queue)) [
  | inl full ↦ rw full h
  | inr room ↦ rw room (elim (Bool-cases (holds req.id queue.pending)) [
    | inl known ↦ rw known (record { distinct = h.distinct; within = h.within })
    | inr fresh ↦ rw fresh (record { distinct = (fresh, h.distinct); within = λ m. ground arith })
  ])
]

pub Step-IsWellFormed : {a b : RequestQueue} → Step a b → IsWellFormed a → IsWellFormed b
Step-IsWellFormed (Step.inserted req queue) h = insert-IsWellFormed req queue h
Step-IsWellFormed (Step.removed id queue) h =
    unfold remove in
    record {
      distinct = erase-HasDistinctIds id queue.pending h.distinct;
      within = λ m. let w = h.within m in omega (arith, length-erase-le id queue.pending);
    }
Step-IsWellFormed (Step.timed_out now queue) h =
    unfold remove_expired in
    record {
      distinct = split-HasDistinctIds now queue.pending h.distinct;
      within = λ m. let w = h.within m in omega (arith, length-split now queue.pending);
    }
Step-IsWellFormed (Step.cancelled id queue) h =
    unfold cancel in
    record {
      distinct = erase-HasDistinctIds id queue.pending h.distinct;
      within = λ m. let w = h.within m in omega (arith, length-erase-le id queue.pending);
    }

-- Every queue that insertions, removals, expiry and cancellations make of a well-formed queue, in
-- any order, holds at most one request under an id, and never more than its limit, if it has one.
pub Reaches-IsWellFormed : {a b : RequestQueue} → Reaches a b → IsWellFormed a → IsWellFormed b
Reaches-IsWellFormed (Reaches.start queue) h = h
Reaches-IsWellFormed (Reaches.next r s) h = Step-IsWellFormed s (Reaches-IsWellFormed r h)

-- A request under a new id, inserted where there is room, is found under its id, and its removal
-- leaves the queue as it was.
pub remove-insert :
    (req : PendingRequest) (queue : RequestQueue)
    → is_full queue ≡ false
    → holds req.id queue.pending ≡ false
    → ((insert req queue).0 ≡ true) × (remove req.id (insert req queue).1 ≡ (some req, queue))
unfolding insert emplace remove find erase
remove-insert req queue room fresh =
    let same : (req.id == req.id) ≡ true = eq→== _ _ refl in rw (room, fresh, same) (refl, refl)

late :
    (now : Timestamp) (pending : List PendingRequest)
    → All (λ req. has_expired now req ≡ true) (split_expired now pending).0
unfolding split_expired
late now [] = tt
late now (req ∷ pending) =
    let rest = late now pending in
    elim (Bool-cases (has_expired now req)) [
      | inl decided ↦ rw decided (decided, rest)
      | inr other ↦ rw other rest
    ]

timely :
    (now : Timestamp) (pending : List PendingRequest)
    → All (λ req. has_expired now req ≡ false) (split_expired now pending).1
unfolding split_expired
timely now [] = tt
timely now (req ∷ pending) =
    let rest = timely now pending in
    elim (Bool-cases (has_expired now req)) [
      | inl decided ↦ rw decided rest
      | inr other ↦ rw other (other, rest)
    ]

-- `remove_expired` splits the queue: what it returns has expired, what stays has not, and no
-- request is lost from their number.
pub remove_expired-splits :
    (now : Timestamp) (queue : RequestQueue)
    → All (λ req. has_expired now req ≡ true) (remove_expired now queue).0
      × All (λ req. has_expired now req ≡ false) (remove_expired now queue).1.pending
      × (length (remove_expired now queue).0 + length (remove_expired now queue).1.pending
          ≡ length queue.pending)
unfolding remove_expired
remove_expired-splits now queue =
    (late now queue.pending, timely now queue.pending, length-split now queue.pending)

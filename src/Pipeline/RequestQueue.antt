-- ===== src/Pipeline/RequestQueue.antt =====
-- include/modbus_pp/pipeline/request_queue.hpp. The hash map is a list of requests with at most one
-- under an id. A callback is named by a number, and the clock's reading is an argument.
pub mod Keys
pub mod Contents
use modbus_pp.Common.{
  ℕ, ◌+◌, ◌*◌, Bool, true, false, ◌&&◌, ◌||◌, Option, none, some, List, [], ◌∷◌, ltb, leb, ◌==◌,
  if◌then◌else◌, length,
}
use modbus_pp.Common.Int.{ℤ, ltb_ℤ, pos, negsuc}
use modbus_pp.Core.Timestamp.{Timestamp, elapsed}
use modbus_pp.Core.Pdu.{Pdu}

pub record PendingRequest : Type 0 where
  pub id : ℕ
  pub request : Pdu
  pub sent_at : Timestamp
  pub timeout : ℤ
  pub callback : Option ℕ

pub record RequestQueue : Type 0 where
  pub pending : List PendingRequest
  pub max_size : ℕ

abbrev pub holds : ℕ → List PendingRequest → Bool
holds id [] = false
holds id (req ∷ pending) = req.id == id || holds id pending

-- `pending_.emplace(id, req)`: an id that is there keeps its request.
unfoldable pub emplace : PendingRequest → List PendingRequest → List PendingRequest
emplace req pending = if holds req.id pending then pending else req ∷ pending

-- `max_size_ > 0 && pending_.size() >= max_size_`
abbrev pub is_full : RequestQueue → Bool
is_full queue = ltb 0 queue.max_size && leb queue.max_size (length queue.pending)

unfoldable pub insert : PendingRequest → RequestQueue → Bool × RequestQueue
insert req queue =
    if is_full queue
    then (false, queue)
    else (true, record queue { pending = emplace req queue.pending })

unfoldable pub find : ℕ → List PendingRequest → Option PendingRequest
find id [] = none
find id (req ∷ pending) = let rest = find id pending in if req.id == id then some req else rest

unfoldable pub erase : ℕ → List PendingRequest → List PendingRequest
erase id [] = []
erase id (req ∷ pending) =
    let rest = erase id pending in if req.id == id then pending else req ∷ rest

unfoldable pub remove : ℕ → RequestQueue → Option PendingRequest × RequestQueue
remove id queue = (find id queue.pending, record queue { pending = erase id queue.pending })

-- `static_cast<std::int64_t>(timeout.count()) * 1000`
abbrev pub times_1000 : ℤ → ℤ
times_1000 (pos n) = pos (n * 1000)
times_1000 (negsuc n) = negsuc (n * 1000 + 999)

abbrev pub has_expired : Timestamp → PendingRequest → Bool
has_expired now req = ltb_ℤ (times_1000 req.timeout) (elapsed now req.sent_at)

-- The loop: the expired requests, and those that stay.
unfoldable pub split_expired :
    Timestamp → List PendingRequest → List PendingRequest × List PendingRequest
split_expired now [] = ([], [])
split_expired now (req ∷ pending) =
    let (expired, kept) = split_expired now pending in
    if has_expired now req then (req ∷ expired, kept) else (expired, req ∷ kept)

unfoldable pub remove_expired : Timestamp → RequestQueue → List PendingRequest × RequestQueue
remove_expired now queue =
    let (expired, kept) = split_expired now queue.pending in
    (expired, record queue { pending = kept })

unfoldable pub cancel : ℕ → RequestQueue → Bool × RequestQueue
cancel id queue = (holds id queue.pending, record queue { pending = erase id queue.pending })

abbrev pub size : RequestQueue → ℕ
size queue = length queue.pending

-- ===== src/Pipeline/Tests.antt =====
-- The theorems on requests in flight at concrete inputs.
use modbus_pp.Common.{
  ℕ, ◌+◌, ◌≡◌, refl, ap, true, false, none, some, List, [], ◌∷◌, ◌++◌, arith, length, All,
}
use modbus_pp.Common.Int.{pos}
use modbus_pp.Core.Error.{pipeline_overflow, timeout_expired}
use modbus_pp.Core.Result.{ok, err}
use modbus_pp.Core.Timestamp.{Timestamp, from_epoch_us}
use modbus_pp.Core.Pdu.{default_header, Pdu, make_standard, make_extended, serialize, deserialize}
use modbus_pp.Transport.Interface.{Transport}
use modbus_pp.Pipeline.RequestQueue.{
  PendingRequest, RequestQueue, holds, insert, remove, has_expired, remove_expired,
}
use modbus_pp.Pipeline.RequestQueue.Keys.{
  IsWellFormed, Step, Reaches, Reaches-IsWellFormed, remove-insert, remove_expired-splits,
}
use modbus_pp.Pipeline.Transactions.{
  Pipeline, tagged, invoke, invoke_expired, correlation_of, submit, handle_response,
}
use modbus_pp.Pipeline.Transactions.Matching.{
  tagged-read_back, submit-answered, submit_overflow, submit_duplicate, handle_response-unmatched,
}

abbrev at : ℕ → Timestamp
at us = from_epoch_us (pos us)

abbrev request : Pdu
request = make_standard 3 (0 ∷ 0 ∷ 0 ∷ 1 ∷ [])

abbrev old : PendingRequest
old = record { id = 9; request = request; sent_at = at 0; timeout = pos 1; callback = some 90 }

abbrev fresh : PendingRequest
fresh = record { id = 1; request = request; sent_at = at 5; timeout = pos 1; callback = some 10 }

abbrev one_pending : RequestQueue
one_pending = record { pending = old ∷ []; max_size = 2 }

abbrev empty_queue : RequestQueue
empty_queue = record { pending = []; max_size = 2 }

empty_queue-IsWellFormed : IsWellFormed empty_queue
empty_queue-IsWellFormed = record { distinct = tt; within = λ m. omega arith }

Reaches-IsWellFormed_run :
    IsWellFormed (remove_expired (at 9) (insert fresh (insert old empty_queue).1).1).1
Reaches-IsWellFormed_run =
    Reaches-IsWellFormed
      (Reaches.next
        (Reaches.next (Reaches.next (Reaches.start empty_queue) (Step.inserted old empty_queue))
          (Step.inserted fresh (insert old empty_queue).1))
        (Step.timed_out (at 9) (insert fresh (insert old empty_queue).1).1))
      empty_queue-IsWellFormed

remove-insert_run :
    ((insert fresh one_pending).0 ≡ true)
    × (remove 1 (insert fresh one_pending).1 ≡ (some fresh, one_pending))
remove-insert_run = remove-insert fresh one_pending refl refl

remove_expired-splits_run :
    All (λ req. has_expired (at 2000) req ≡ true) (remove_expired (at 2000) one_pending).0
    × All
        (λ req. has_expired (at 2000) req ≡ false)
        (remove_expired (at 2000) one_pending).1.pending
    × (length (remove_expired (at 2000) one_pending).0
          + length (remove_expired (at 2000) one_pending).1.pending
        ≡ length one_pending.pending)
remove_expired-splits_run = remove_expired-splits (at 2000) one_pending

tagged-read_back_run :
    let pdu = tagged 7 request in
    (deserialize (serialize pdu) ≡ ok pdu)
    × (correlation_of pdu ≡ 7)
    × (deserialize pdu.payload ≡ ok request)
tagged-read_back_run = tagged-read_back 7 3 (0 ∷ 0 ∷ 0 ∷ 1 ∷ []) (omega arith) refl (omega arith)

-- A connection that accepts every frame and keeps the last one.
abbrev keeper : Transport (List ℕ)
keeper = record { send = λ frame w. (ok tt, frame); receive = λ w. (err timeout_expired, w) }

abbrev pipeline : RequestQueue → ℕ → Pipeline (List ℕ)
pipeline queue counter = record {
  world = [];
  default_timeout = pos 1000;
  queue = queue;
  counter = counter;
  total_completed = 0;
  total_latency_us = 0;
  calls = [];
}

abbrev answer : Pdu
answer = make_extended (record default_header { correlation_id = 1 }) (5 ∷ []) none

answer_carries : correlation_of answer ≡ 1
unfolding make_extended
answer_carries = refl

submit-answered_example :
    let (result, p') = submit keeper (at 1) request (some 4) (pos 0) (pipeline one_pending 1) in
    let q = handle_response (at 2) (at 3) answer p' in
    let (expired, queue) = remove_expired (at 3) one_pending in
    (result ≡ ok 1)
    × (q.queue ≡ queue)
    × (q.calls ≡ invoke (some 4) (ok answer) ++ invoke_expired expired)
    × (q.total_completed ≡ 1)
submit-answered_example =
    submit-answered keeper (pipeline one_pending 1) (at 1) (at 2) (at 3) request answer (some 4)
      (pos 0) (serialize (tagged 1 request)) refl refl refl answer_carries

submit_overflow_run :
    let full : RequestQueue = record { pending = old ∷ []; max_size = 1 } in
    let (result, p') = submit keeper (at 1) request (some 4) (pos 0) (pipeline full 1) in
    (result ≡ err pipeline_overflow) × (p'.world ≡ serialize (tagged 1 request)) × (p'.queue ≡ full)
submit_overflow_run =
    submit_overflow keeper (pipeline (record { pending = old ∷ []; max_size = 1 }) 1) (at 1) request
      (some 4) (pos 0) (serialize (tagged 1 request)) refl refl

submit_duplicate_run :
    let (result, p') = submit keeper (at 1) request (some 4) (pos 0) (pipeline one_pending 9) in
    (result ≡ ok 9) × (p'.queue ≡ one_pending) × (p'.calls ≡ [])
submit_duplicate_run =
    submit_duplicate keeper (pipeline one_pending 9) (at 1) request (some 4) (pos 0)
      (serialize (tagged 9 request)) refl refl refl

handle_response-unmatched_run :
    handle_response (at 2) (at 3) answer (pipeline one_pending 2) ≡ pipeline one_pending 2
handle_response-unmatched_run =
    handle_response-unmatched (pipeline one_pending 2) (at 2) (at 3) answer
      (ap (λ id. holds id (old ∷ [])) answer_carries)

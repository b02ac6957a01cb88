-- ===== src/Pipeline/OutOfOrder/Tests.antt =====
-- Two requests in flight, of which the second one is answered first.
use mathlib.Core.List.Perm
use modbus_pp.Common.{ℕ, ◌≡◌, refl, some, List, [], ◌∷◌, ◌++◌, arith, IsWord16}
use modbus_pp.Common.Int.{pos}
use modbus_pp.Core.Error.{timeout_expired}
use modbus_pp.Core.Result.{Result, ok, err}
use modbus_pp.Core.Timestamp.{Timestamp, from_epoch_us}
use modbus_pp.Core.Pdu
use modbus_pp.Core.Pdu.{Pdu, make_standard}
use modbus_pp.Transport.Interface.{Transport}
use modbus_pp.Pipeline.RequestQueue.{PendingRequest}
use modbus_pp.Pipeline.Transactions.{Pipeline, tagged}
use modbus_pp.Pipeline.Transactions.Matching.{tagged-read_back}
use modbus_pp.Pipeline.OutOfOrder.Ids.{answered_calls}
use modbus_pp.Pipeline.OutOfOrder.{Delivers, poll_times, poll_times-answered}

abbrev arriving : Transport (List (List ℕ))
arriving = record { send = λ frame w. (ok tt, w); receive = taken }
  where
    taken : List (List ℕ) → Result (List ℕ) × List (List ℕ)
    taken [] = (err timeout_expired, [])
    taken (frame ∷ w) = (ok frame, w)

abbrev at : ℕ → Timestamp
at us = from_epoch_us (pos us)

abbrev question : Pdu
question = make_standard 3 (0 ∷ 0 ∷ 0 ∷ 1 ∷ [])

abbrev asked : ℕ → ℕ → PendingRequest
asked id callback = record {
  id = id;
  request = tagged id question;
  sent_at = at 0;
  timeout = pos 1;
  callback = some callback;
}

abbrev waiting : Pipeline (List (List ℕ))
waiting = record {
  world = Pdu.serialize (tagged 2 question) ∷ Pdu.serialize (tagged 1 question) ∷ [];
  default_timeout = pos 1000;
  queue = record { pending = asked 1 71 ∷ asked 2 72 ∷ []; max_size = 4 };
  counter = 3;
  total_completed = 0;
  total_latency_us = 0;
  calls = [];
}

read_back :
    (id : ℕ)
    → IsWord16 id
    → Pdu.deserialize (Pdu.serialize (tagged id question)) ≡ ok (tagged id question)
read_back id h = (tagged-read_back id 3 (0 ∷ 0 ∷ 0 ∷ 1 ∷ []) h refl (omega arith)).0

abbrev clock : ℕ → Timestamp × Timestamp
clock k = (at 500, at 600)

poll_times-answered_example :
    (q : Pipeline (List (List ℕ))) × (poll_times arriving clock 0 2 waiting ≡ ok q)
    × (q.queue.pending ≡ [])
    × (q.calls
        ≡ [] ++ answered_calls waiting.queue.pending (tagged 2 question ∷ tagged 1 question ∷ []))
    × (q.world ≡ [])
unfolding tagged make_standard Pdu.make_extended
poll_times-answered_example =
    poll_times-answered arriving clock 0 waiting (tagged 2 question ∷ tagged 1 question ∷ []) []
      (Delivers.one_more refl (read_back 2 (omega arith))
        (Delivers.one_more refl (read_back 1 (omega arith)) (Delivers.nothing_more [])))
      (refl, (refl, tt)) (Perm.swap 1 2 []) (λ k. (refl, (refl, tt)))

-- ===== src/Pipeline/History/Tests.antt =====
-- A pipeline over a connection that gives each frame back: two requests, an answer, and a cancelled
-- request.
use modbus_pp.Common.{ℕ, ◌≡◌, refl, some, List, [], ◌∷◌, ◌++◌, arith}
use modbus_pp.Common.Int.{pos}
use modbus_pp.Core.Error.{timeout_expired}
use modbus_pp.Core.Result.{Result, ok, err}
use modbus_pp.Core.Timestamp.{Timestamp, from_epoch_us}
use modbus_pp.Core.Pdu.{Pdu, make_standard}
use modbus_pp.Core.Pdu
use modbus_pp.Transport.Interface.{Transport}
use modbus_pp.Pipeline.RequestQueue.{
  emplace, insert, find, erase, remove, split_expired, remove_expired,
}
use modbus_pp.Pipeline.Transactions.{
  Pipeline, create, tagged, submit, complete, handle_response, poll, cancel_request,
}
use modbus_pp.Pipeline.Transactions.Matching.{tagged-read_back}
use modbus_pp.Pipeline.History.{History}
use modbus_pp.Pipeline.History.Sound.{IsSound, History-IsSound}

-- The messages under way, the oldest first.
abbrev mirror : Transport (List (List ℕ))
mirror = record { send = λ frame w. (ok tt, w ++ (frame ∷ [])); receive = taken }
  where
    taken : List (List ℕ) → Result (List ℕ) × List (List ℕ)
    taken [] = (err timeout_expired, [])
    taken (frame ∷ w) = (ok frame, w)

abbrev at : ℕ → Timestamp
at us = from_epoch_us (pos us)

abbrev request : Pdu
request = make_standard 3 (0 ∷ 0 ∷ 0 ∷ 1 ∷ [])

abbrev first : Pipeline (List (List ℕ))
first = (submit mirror (at 0) request (some 70) (pos 0) (create [] 4 (pos 1000))).1

abbrev second : Pipeline (List (List ℕ))
second = (submit mirror (at 9) request (some 71) (pos 0) first).1

-- The first request comes back as its answer, and the second one is still under way.
abbrev answered : Pipeline (List (List ℕ))
answered =
    handle_response (at 20) (at 30) (tagged 1 request)
      (record second { world = Pdu.serialize (tagged 2 request) ∷ [] })

polled_first : poll mirror (at 20) (at 30) second ≡ ok answered
unfolding submit create
polled_first =
    rw ((tagged-read_back 1 3 (0 ∷ 0 ∷ 0 ∷ 1 ∷ []) (omega arith) refl (omega arith)).0) refl

past :
    History mirror ((2, some 71) ∷ (1, some 70) ∷ []) (some 71 ∷ []) (cancel_request 2 answered).1
unfolding submit create handle_response complete insert emplace remove erase find remove_expired
    split_expired tagged make_standard Pdu.make_extended
past =
    History.cancels
      (History.polls
        (History.submits
          (History.submits (History.creates [] 4 (pos 1000)) (at 0) request (some 70) (pos 0))
          (at 9) request (some 71) (pos 0))
        (at 20) (at 30) polled_first)
      2

History-IsSound_example :
    IsSound
      ((2, some 71) ∷ (1, some 70) ∷ [])
      (some 71 ∷ [])
      (cancel_request 2 answered).1.queue
      (cancel_request 2 answered).1.calls
History-IsSound_example = History-IsSound mirror past

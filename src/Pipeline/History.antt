-- ===== src/Pipeline/History.antt =====
-- The calls of a `Pipeline` (src/pipeline/pipeline.cpp) one after the other, from its construction on,
-- in any order. The lock of the queue and the atomic counters make each call one step.
pub mod Counts
pub mod Sound
mod Tests
use modbus_pp.Common.{ℕ, ◌≡◌, Bool, true, false, Option, none, some, List, [], ◌∷◌, ◌++◌}
use modbus_pp.Common.Int.{ℤ}
use modbus_pp.Core.Result.{Result, ok, err, fault}
use modbus_pp.Core.Timestamp.{Timestamp}
use modbus_pp.Core.Pdu.{Pdu}
use modbus_pp.Transport.Interface.{Transport}
use modbus_pp.Pipeline.RequestQueue.{PendingRequest, holds, find}
use modbus_pp.Pipeline.Transactions.{Pipeline, create, submit, poll, cancel_request}

-- A call of `submit` that was answered with an identifier, and its callback.
abbrev pub Submission : Type 0
Submission = ℕ × Option ℕ

abbrev pub accepted : Result ℕ → Option ℕ → List Submission
accepted (ok id) callback = (id, callback) ∷ []
accepted (err e) callback = []
accepted fault callback = []

-- The callback of a request that was accepted under an identifier in flight, which the queue drops.
abbrev pub dropped : Result ℕ → Bool → Option ℕ → List (Option ℕ)
dropped (ok id) true callback = callback ∷ []
dropped (ok id) false callback = []
dropped (err e) known callback = []
dropped fault known callback = []

abbrev pub withdrawn : Option PendingRequest → List (Option ℕ)
withdrawn none = []
withdrawn (some req) = req.callback ∷ []

-- What was accepted, the callbacks that were withdrawn by `cancel` or dropped, and the pipeline that
-- the calls have made.
pub data History {W : Type 0} (transport : Transport W)
    : List Submission → List (Option ℕ) → Pipeline W → Type 0 where
  creates :
      (world : W) (max_in_flight : ℕ) (default_timeout : ℤ)
      → History transport [] [] (create world max_in_flight default_timeout)
  submits :
      {log : List Submission} {gone : List (Option ℕ)} {p : Pipeline W}
      → History transport log gone p
      → (now : Timestamp) (request : Pdu) (callback : Option ℕ) (timeout : ℤ)
      → History transport
          (accepted (submit transport now request callback timeout p).0 callback ++ log)
          (dropped
              (submit transport now request callback timeout p).0
              (holds p.counter p.queue.pending)
              callback
            ++ gone)
          (submit transport now request callback timeout p).1
  polls :
      {log : List Submission} {gone : List (Option ℕ)} {p q : Pipeline W}
      → History transport log gone p
      → (now now' : Timestamp) → poll transport now now' p ≡ ok q
      → History transport log gone q
  cancels :
      {log : List Submission} {gone : List (Option ℕ)} {p : Pipeline W}
      → History transport log gone p
      → (id : ℕ)
      → History transport log (withdrawn (find id p.queue.pending) ++ gone) (cancel_request id p).1

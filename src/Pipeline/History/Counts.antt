-- ===== src/Pipeline/History/Counts.antt =====
-- How often a callback stands among the requests in flight, the calls, and the rest.
use modbus_pp.Common.{
  ℕ, ◌+◌, ◌≡◌, refl, Option, none, some, List, [], ◌∷◌, ◌++◌, arith, ◌==◌, if◌then◌else◌,
}
use modbus_pp.Core.Error.{timeout_expired}
use modbus_pp.Core.Result.{Result, err}
use modbus_pp.Core.Timestamp.{Timestamp}
use modbus_pp.Core.Pdu.{Pdu}
use modbus_pp.Pipeline.RequestQueue.{PendingRequest, holds, emplace, find, erase, split_expired}
use modbus_pp.Pipeline.Transactions.{invoke, invoke_expired}

abbrev pub once_if : ℕ → Option ℕ → ℕ
once_if callback none = 0
once_if callback (some other) = if other == callback then 1 else 0

unfoldable pub count : ℕ → List (Option ℕ) → ℕ
count callback [] = 0
count callback (other ∷ others) = once_if callback other + count callback others

abbrev callbacks_called : List (ℕ × Result Pdu) → List (Option ℕ)
callbacks_called [] = []
callbacks_called ((callback, result) ∷ calls) = some callback ∷ callbacks_called calls

abbrev callbacks_held : List PendingRequest → List (Option ℕ)
callbacks_held [] = []
callbacks_held (req ∷ pending) = req.callback ∷ callbacks_held pending

abbrev callbacks_accepted : List (ℕ × Option ℕ) → List (Option ℕ)
callbacks_accepted [] = []
callbacks_accepted ((id, callback) ∷ log) = callback ∷ callbacks_accepted log

abbrev pub called : ℕ → List (ℕ × Result Pdu) → ℕ
called callback calls = count callback (callbacks_called calls)

abbrev pub held : ℕ → List PendingRequest → ℕ
held callback pending = count callback (callbacks_held pending)

abbrev pub times_accepted : ℕ → List (ℕ × Option ℕ) → ℕ
times_accepted callback log = count callback (callbacks_accepted log)

pub held-emplace :
    (k : ℕ) (req : PendingRequest) (pending : List PendingRequest)
    → held k (emplace req pending)
      ≡ (if holds req.id pending then 0 else once_if k req.callback) + held k pending
unfolding emplace count
held-emplace k req pending = ground arith

-- The callback that a request in flight takes with it.
abbrev pub of_found : ℕ → Option PendingRequest → ℕ
of_found k none = 0
of_found k (some req) = once_if k req.callback

pub held-erase :
    (k id : ℕ) (pending : List PendingRequest)
    → of_found k (find id pending) + held k (erase id pending) ≡ held k pending
unfolding find erase count
held-erase k id [] = refl
held-erase k id (req ∷ pending) = ground (arith, held-erase k id pending)

pub held-split :
    (k : ℕ) (now : Timestamp) (pending : List PendingRequest)
    → held k (split_expired now pending).0 + held k (split_expired now pending).1 ≡ held k pending
unfolding split_expired count
held-split k now [] = refl
held-split k now (req ∷ pending) = ground (arith, held-split k now pending)

pub called-append :
    (k : ℕ) (calls others : List (ℕ × Result Pdu))
    → called k (calls ++ others) ≡ called k calls + called k others
unfolding count
called-append k [] others = omega arith
called-append k (call ∷ calls) others = omega (arith, called-append k calls others)

pub called-invoke :
    (k : ℕ) (callback : Option ℕ) (result : Result Pdu)
    → called k (invoke callback result) ≡ once_if k callback
unfolding count
called-invoke k none result = refl
called-invoke k (some c) result = omega arith

pub called-invoke_expired :
    (k : ℕ) (expired : List PendingRequest) → called k (invoke_expired expired) ≡ held k expired
unfolding count
called-invoke_expired k [] = refl
called-invoke_expired k (req ∷ expired) =
    rw (called-append k (invoke req.callback (err timeout_expired)) (invoke_expired expired)) (
      omega (
        arith,
        called-invoke k req.callback (err timeout_expired),
        called-invoke_expired k expired,
      ))

-- ===== src/Pipeline/Sync.antt =====
-- Pipeline::submit_sync. The readings of the system clock and of the steady clock, and the wait of a
-- millisecond, are parameters. `callback` is the number of the callback that the call registers, and
-- its result is looked for among the calls. `fault` also stands for a loop that has not ended after
-- the given number of rounds.
pub mod Ends
mod Tests
use modbus_pp.Common.{
  ℕ, zero, suc, ◌+◌, Bool, Option, none, some, List, [], ◌∷◌, leb, ◌==◌, if◌then◌else◌,
}
use modbus_pp.Common.Int.{ℤ, pos, negsuc}
use modbus_pp.Core.Error.{timeout_expired}
use modbus_pp.Core.Result.{Result, ok, err, fault}
use modbus_pp.Core.Timestamp.{Timestamp}
use modbus_pp.Core.Pdu.{Pdu}
use modbus_pp.Transport.Interface.{Transport}
use modbus_pp.Pipeline.Transactions.{Pipeline, submit, poll, cancel_request}

-- `wall` is `Timestamp::now`, `steady` the steady clock in milliseconds, `wait` the wait of the
-- condition variable for 1 ms.
pub record Clock (W : Type 0) : Type 0 where
  pub wall : W → Timestamp
  pub steady : W → ℕ
  pub wait : W → W

-- `now >= start + timeout`
abbrev pub reached : ℕ → ℤ → ℕ → Bool
reached start (pos n) now = leb (start + n) now
reached start (negsuc n) now = leb start (now + suc n)

-- The result that was passed to the callback.
unfoldable pub result_of : ℕ → List (ℕ × Result Pdu) → Option (Result Pdu)
result_of callback [] = none
result_of callback ((c, result) ∷ calls) =
    let rest = result_of callback calls in if c == callback then some result else rest

module _ {W : Type 0} (transport : Transport W) (clock : Clock W) where
  abbrev pub poll_once : Pipeline W → Result (Pipeline W)
  poll_once p =
      let w = (transport.receive p.world).1 in poll transport (clock.wall w) (clock.wall w) p

  abbrev pub waited : Pipeline W → Pipeline W
  waited p = record p { world = clock.wait p.world }

  -- Behind the wait: the result, or the deadline, or another round.
  abbrev pub after_wait :
      (Pipeline W → Result Pdu × Pipeline W)
      → ℕ
      → ℤ
      → ℕ
      → Option (Result Pdu)
      → Pipeline W
      → Result Pdu × Pipeline W
  after_wait go_on start timeout id (some result) p = (result, p)
  after_wait go_on start timeout id none p =
      if reached start timeout (clock.steady p.world)
      then (err timeout_expired, (cancel_request id p).1)
      else go_on p

  abbrev pub after_sync_poll :
      (Pipeline W → Result Pdu × Pipeline W)
      → ℕ
      → ℤ
      → ℕ
      → ℕ
      → Pipeline W
      → Result (Pipeline W)
      → Result Pdu × Pipeline W
  after_sync_poll go_on start timeout id callback p (ok p') =
      after_wait go_on start timeout id (result_of callback p'.calls) (waited p')
  after_sync_poll go_on start timeout id callback p (err e) = (err e, p)
  after_sync_poll go_on start timeout id callback p fault = (fault, p)

  unfoldable pub sync_loop : ℕ → ℕ → ℤ → ℕ → ℕ → Pipeline W → Result Pdu × Pipeline W
  sync_loop zero start timeout id callback p = (fault, p)
  sync_loop (suc rounds) start timeout id callback p =
      after_sync_poll (sync_loop rounds start timeout id callback) start timeout id callback p
        (poll_once p)

  abbrev pub after_submit : ℕ → ℤ → ℕ → Result ℕ × Pipeline W → Result Pdu × Pipeline W
  after_submit rounds timeout callback (ok id, p) =
      sync_loop rounds (clock.steady p.world) timeout id callback p
  after_submit rounds timeout callback (err e, p) = (err e, p)
  after_submit rounds timeout callback (fault, p) = (fault, p)

  unfoldable pub submit_sync : ℕ → ℕ → Pdu → ℤ → Pipeline W → Result Pdu × Pipeline W
  submit_sync rounds callback request timeout p =
      after_submit rounds timeout callback
        (submit transport (clock.wall p.world) request (some callback) timeout p)

-- ===== src/Pipeline/Sync/Tests.antt =====
-- A synchronous request over a line on which nobody answers. The state is the time in milliseconds.
use modbus_pp.Common.{ℕ, suc, ◌*◌, ◌≡◌, refl, ◌≢◌, [], ◌∷◌, arith}
use modbus_pp.Common.Int.{pos}
use modbus_pp.Core.Error.{timeout_expired}
use modbus_pp.Core.Result.{ok, err, fault}
--@ modbus_pp.Core.Timestamp.{}
use modbus_pp.Core.Pdu.{Pdu, make_standard}
use modbus_pp.Transport.Interface.{Transport}
--@ modbus_pp.Pipeline.RequestQueue.{}
use modbus_pp.Pipeline.Transactions.{Pipeline, create}
use modbus_pp.Pipeline.Sync.{Clock, result_of, submit_sync}
use modbus_pp.Pipeline.Sync.Ends.{IsSteady, submit_sync_zero_timeout, submit_sync-ends}

abbrev nobody : Transport ℕ
nobody = record { send = λ frame t. (ok tt, t); receive = λ t. (err timeout_expired, t) }

abbrev clock : Clock ℕ
clock = record {
  wall = λ t. record { us_since_epoch = pos (t * 1000) };
  steady = λ t. t;
  wait = λ t. suc t;
}

nobody-IsSteady : IsSteady nobody clock
nobody-IsSteady = record {
  receive_keeps = λ t. omega arith;
  wait_ticks = λ t. omega arith;
  receive_defined = λ t e. cc;
  send_defined = λ frame t e. cc;
}

abbrev request : Pdu
request = make_standard 3 (0 ∷ 0 ∷ 0 ∷ 1 ∷ [])

abbrev patient : Pipeline ℕ
patient = create 0 4 (pos 5000)

submit_sync-ends_example : (submit_sync nobody clock 21 7 request (pos 20) patient).0 ≢ fault
unfolding create
submit_sync-ends_example =
    submit_sync-ends nobody clock nobody-IsSteady 21 7 request (pos 20) patient (omega arith) tt

submit_sync_zero_timeout_run :
    ((submit_sync nobody clock 1 7 request (pos 0) patient).0 ≡ err timeout_expired)
    × ((submit_sync nobody clock 1 7 request (pos 0) patient).1.queue ≡ patient.queue)
unfolding create result_of
submit_sync_zero_timeout_run =
    submit_sync_zero_timeout nobody clock nobody-IsSteady 0 7 request patient 0 timeout_expired refl
      refl refl refl refl

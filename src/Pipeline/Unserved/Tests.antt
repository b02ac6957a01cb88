-- ===== src/Pipeline/Unserved/Tests.antt =====
-- A pipelined read of one register at a slave that answers every read with 7.
use modbus_pp.Common.{ℕ, ◌+◌, ◌≡◌, refl, none, some, [], ◌∷◌, arith}
use modbus_pp.Common.Int.{pos}
use modbus_pp.Core.Result.{ok}
use modbus_pp.Core.Timestamp.{Timestamp, from_epoch_us}
use modbus_pp.Core.Pdu.{make_standard}
use modbus_pp.Client.Server.{Server}
use modbus_pp.Client.Served.{Pair, served, idle_pair}
--@ modbus_pp.Pipeline.RequestQueue.{}
use modbus_pp.Pipeline.Transactions.{Pipeline, pending_request, submit, poll}
use modbus_pp.Pipeline.Unserved.{poll-submit_unserved}

-- The state counts the calls of the handler.
abbrev sevens : Server ℕ
sevens = record {
  unit_id = 10;
  read_handler = some (λ calls addr count. (ok (7 ∷ []), calls + 1));
  write_handler = none;
}

abbrev at : ℕ → Timestamp
at us = from_epoch_us (pos us)

abbrev start : Pipeline (Pair ℕ)
start = record {
  world = idle_pair 0;
  default_timeout = pos 1000;
  queue = record { pending = []; max_size = 4 };
  counter = 1;
  total_completed = 0;
  total_latency_us = 0;
  calls = [];
}

poll-submit_unserved_example :
    let (result, p) =
      submit (served sevens) (at 0) (make_standard 3 (0 ∷ 0 ∷ 0 ∷ 1 ∷ [])) (some 5) (pos 0) start in
    (result ≡ ok 1)
    × (p.queue.pending
        ≡ pending_request (at 0) (make_standard 3 (0 ∷ 0 ∷ 0 ∷ 1 ∷ [])) (some 5) (pos 0) start ∷ [])
    × (poll (served sevens) (at 1) (at 2) p ≡ ok (record p { world = idle_pair 0 }))
    × (p.calls ≡ [])
poll-submit_unserved_example =
    poll-submit_unserved sevens 0 start (at 0) (at 1) (at 2) 3 (0 ∷ 0 ∷ 0 ∷ 1 ∷ []) (some 5) (pos 0)
      refl refl refl (omega arith) (omega arith) (omega arith)

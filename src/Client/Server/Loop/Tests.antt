-- ===== src/Client/Server/Loop/Tests.antt =====
-- The loop of a slave without handlers over the in-process transport: it was stopped before `run`, and
-- is stopped again during its third turn.
use modbus_pp.Common.{ℕ, ◌≡◌, refl, false, some, [], ◌∷◌, arith, ◌==◌}
use modbus_pp.Core.Result.{ok, err, fault}
use modbus_pp.Client.Server.{Server, new_server}
use modbus_pp.Client.Server.Loop.{Running, run, turns, run-stop}
use modbus_pp.Client.Served.{Pair, serve, idle_pair}

abbrev silent : Server ℕ
silent = new_server 1

-- One `process_one`; the publisher has no source.
abbrev turn : Pair ℕ → Pair ℕ
turn p = elim (serve silent p) [ ok q ↦ q | err e ↦ p | fault ↦ p ]

abbrev stopped : Running (Pair ℕ)
stopped = record {
  running = false;
  state = record (idle_pair 0) { to_slave = (1 ∷ []) ∷ (2 ∷ []) ∷ (3 ∷ []) ∷ (4 ∷ []) ∷ [] };
}

run-stop_example :
    run turn (λ n. n == 2) 4 stopped
    ≡ some (record { running = false; state = turns turn 3 stopped.state })
run-stop_example = run-stop turn (λ n. n == 2) 2 stopped (λ i h. ground arith) refl

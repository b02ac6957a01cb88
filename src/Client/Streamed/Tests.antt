-- ===== src/Client/Streamed/Tests.antt =====
-- A master whose first request timed out: the answer that comes late, under transaction number 1, is
-- taken for that of its second request.
use modbus_pp.Common.{ℕ, ◌≡◌, refl, true, none, some, [], ◌∷◌, ◌++◌, arith}
use modbus_pp.Core.Result.{ok}
use modbus_pp.Core.FunctionCodes
use modbus_pp.Core.Pdu.{Pdu, make_standard, serialize}
use modbus_pp.Transport.FrameCodec.{wrap_tcp}
use modbus_pp.Transport.Tcp.{TcpTransport, write_loop, tcp}
use modbus_pp.Transport.Tcp
use modbus_pp.Transport.Tcp.OneByte.{Line, line, line-IsStream}
use modbus_pp.Client.Master.{Client, check_exception, transact}
use modbus_pp.Client.Served.Reads.{standard-IsSendable}
use modbus_pp.Client.Streamed.{transact-streamed}

abbrev read_request : ℕ → Pdu
read_request addr = make_standard FunctionCodes.read_holding_registers (0 ∷ addr ∷ 0 ∷ 1 ∷ [])

-- The register at address 0 is 5.
abbrev late_answer : Pdu
late_answer = make_standard FunctionCodes.read_holding_registers (2 ∷ 0 ∷ 5 ∷ [])

abbrev second_turn : Client (TcpTransport Line)
second_turn = record {
  next_transaction_id = 2;
  session = none;
  world = record {
    os = record { arriving = wrap_tcp 9 late_answer 1 ++ []; taken = []; fds = [] };
    socket_fd = some 3;
    connected = true;
  };
}

-- The second request is for address 7.
request_sent : (Tcp.send line (wrap_tcp 9 (read_request 7) 2) second_turn.world).0 ≡ ok tt
unfolding Tcp.send write_loop wrap_tcp make_standard serialize
request_sent = refl

answer_waits :
    (Tcp.send line (wrap_tcp 9 (read_request 7) 2) second_turn.world).1.os.arriving
    ≡ wrap_tcp 9 late_answer 1 ++ []
unfolding Tcp.send write_loop wrap_tcp make_standard serialize
answer_waits = refl

transact-streamed_example :
    ((transact (tcp line) 9 (read_request 7) second_turn).0 ≡ check_exception late_answer)
    × ((transact (tcp line) 9 (read_request 7) second_turn).1.world.os.arriving ≡ [])
transact-streamed_example =
    transact-streamed line Line.arriving line-IsStream second_turn 9 (read_request 7) 9 1
      late_answer [] request_sent answer_waits
      (standard-IsSendable 3 (2 ∷ 0 ∷ 5 ∷ []) refl (omega arith)) (omega arith)

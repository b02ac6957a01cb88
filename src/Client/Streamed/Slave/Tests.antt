-- ===== src/Client/Streamed/Slave/Tests.antt =====
-- Two requests on a connection that moves one byte at a time, and the first bytes of a third.
use modbus_pp.Common.{ℕ, ◌≡◌, refl, true, some, List, [], ◌∷◌, ◌++◌}
use modbus_pp.Core.Result.{ok}
use modbus_pp.Transport.FrameCodec.{wrap_tcp}
use modbus_pp.Transport.Tcp.{TcpTransport, tcp}
use modbus_pp.Transport.Tcp.OneByte.{Line, line, line-IsDuplex}
use modbus_pp.Client.Served.Run.{frame_of}
use modbus_pp.Client.Served.Bank.{
  bank_server, bank, three_registers, first_register, registers_answer, both_answered,
}
use modbus_pp.Client.Streamed.Slave.{serve_times, wire, serve_times-streamed}

abbrev asked : List ℕ
asked = wire (frame_of three_registers ∷ frame_of first_register ∷ [])

abbrev answers : List (List ℕ)
answers =
    wrap_tcp 1 (registers_answer (6 ∷ 0 ∷ 5 ∷ 0x12 ∷ 0x34 ∷ 0 ∷ 9 ∷ [])) 7
    ∷ wrap_tcp 1 (registers_answer (2 ∷ 0 ∷ 5 ∷ [])) 8
    ∷ []

abbrev connection : TcpTransport Line
connection = record {
  os = record { arriving = asked ++ (0 ∷ 9 ∷ []); taken = 7 ∷ []; fds = [] };
  socket_fd = some 3;
  connected = true;
}

serve_times-streamed_example :
    (t : TcpTransport Line) × (serve_times (tcp line) bank_server 2 (bank, connection)
      ≡ ok (bank, t))
    × (t.connected ≡ true)
    × (t.os.arriving ≡ 0 ∷ 9 ∷ [])
    × (t.os.taken ≡ (7 ∷ []) ++ wire answers)
serve_times-streamed_example =
    serve_times-streamed bank_server line Line.arriving Line.taken line-IsDuplex connection
      (0 ∷ 9 ∷ []) both_answered refl refl

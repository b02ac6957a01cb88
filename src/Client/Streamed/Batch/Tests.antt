-- ===== src/Client/Streamed/Batch/Tests.antt =====
-- A batch read of two ranges, one of them refused, over a line that delivers one byte at a time.
use modbus_pp.Common.{◌≡◌, refl, true, none, some, [], ◌∷◌, ◌++◌, arith, length}
use modbus_pp.Core.Error.{success, illegal_data_address}
use modbus_pp.Core.Result.{ok}
use modbus_pp.Core.FunctionCodes
use modbus_pp.Core.Pdu.{FrameHeader, default_header, Pdu, make_extended}
use modbus_pp.Core.Pdu
use modbus_pp.Core.Pdu.Made.{IsUsable}
use modbus_pp.Transport.FrameCodec.{wrap_tcp}
use modbus_pp.Transport.Tcp.{TcpTransport, write_loop, tcp}
use modbus_pp.Transport.Tcp
use modbus_pp.Transport.Tcp.OneByte.{Line, line, line-IsStream}
use modbus_pp.RegisterMap.Batch
use modbus_pp.RegisterMap.Batch.{BatchRequest}
use modbus_pp.RegisterMap.Batch.Response
use modbus_pp.RegisterMap.Batch.Response.{BatchResponse}
use modbus_pp.Client.Master.{Client, batch_pdu, batch_read}
use modbus_pp.Client.Streamed.Batch.{batch_read-streamed}

abbrev two_ranges : BatchRequest
two_ranges =
    record { start_address = 16; count = 2; register_type = 0; byte_order = 0 }
    ∷ record { start_address = 600; count = 1; register_type = 0; byte_order = 0 }
    ∷ []

abbrev two_answers : BatchResponse
two_answers =
    record { address = 16; registers = 0x1234 ∷ 7 ∷ []; status = success }
    ∷ record { address = 600; registers = []; status = illegal_data_address }
    ∷ []

abbrev header : FrameHeader
header = record default_header { ext_function_code = FunctionCodes.batch_read }

abbrev answer : Pdu
answer = make_extended header (Response.serialize two_answers) none

abbrev asking : Client (TcpTransport Line)
asking = record {
  next_transaction_id = 8;
  session = none;
  world = record {
    os = record { arriving = wrap_tcp 1 answer 8 ++ (0 ∷ []); taken = []; fds = [] };
    socket_fd = some 3;
    connected = true;
  };
}

size : length (Response.serialize two_answers) ≡ 16
unfolding Response.serialize Response.result_bytes Response.results_bytes
size = refl

frame_size : length (Pdu.serialize answer) ≡ 25
unfolding make_extended Pdu.serialize Pdu.serialize_extended Response.serialize
    Response.results_bytes Response.result_bytes
frame_size = refl

request_sent : (Tcp.send line (wrap_tcp 1 (batch_pdu none two_ranges) 8) asking.world).0 ≡ ok tt
unfolding Tcp.send write_loop wrap_tcp make_extended Pdu.serialize Pdu.serialize_extended
    Batch.serialize Batch.items_bytes Batch.item_bytes
request_sent = refl

answer_waits :
    (Tcp.send line (wrap_tcp 1 (batch_pdu none two_ranges) 8) asking.world).1.os.arriving
    ≡ wrap_tcp 1 answer 8 ++ (0 ∷ [])
unfolding Tcp.send write_loop wrap_tcp make_extended Pdu.serialize Pdu.serialize_extended
    Batch.serialize Batch.items_bytes Batch.item_bytes
answer_waits = refl

header-IsUsable : IsUsable header (Response.serialize two_answers) none
header-IsUsable = record {
  version_one = refl;
  flags_fit = omega arith;
  correlation_fits = omega arith;
  payload_fits = omega (arith, size);
  timestamp_valid = tt;
  digest_valid = tt;
  no_stray_timestamp = λ q. refl;
  no_stray_hmac = λ q. refl;
}

batch_read-streamed_example :
    ((batch_read (tcp line) none 1 two_ranges asking).0 ≡ ok two_answers)
    × ((batch_read (tcp line) none 1 two_ranges asking).1.world.os.arriving ≡ 0 ∷ [])
batch_read-streamed_example =
    batch_read-streamed line Line.arriving line-IsStream asking none 1 two_ranges header none
      two_answers 1 8 (0 ∷ []) request_sent answer_waits header-IsUsable (omega (arith, frame_size))
      (omega arith) (omega arith)
      (
        (omega arith, omega arith, omega arith, (omega arith, (omega arith, tt))),
        ((omega arith, omega arith, omega arith, tt), tt),
      )

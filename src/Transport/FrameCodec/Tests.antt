-- ===== src/Transport/FrameCodec/Tests.antt =====
-- Runs of the framing, and its theorems at concrete inputs.
use modbus_pp.Common.{
  ℕ, ◌≡◌, refl, ap, ◌↔◌, none, some, List, [], ◌∷◌, ◌++◌, arith, length, get_elem?, set, AreBytes,
  word16,
}
use modbus_pp.Core.Error.{unsupported_version, crc_mismatch}
use modbus_pp.Core.Result.{err, fault}
use modbus_pp.Core.Span.{read, read_word16}
use modbus_pp.Core.Pdu
use modbus_pp.Core.Pdu.{Pdu}
use modbus_pp.Transport.FrameCodec.{wrap_tcp, unwrap_tcp, wrap_rtu, unwrap_rtu}
use modbus_pp.Transport.FrameCodec.Tcp.{
  received, unwrap_tcp-wrap_tcp, HasZeroLength, unwrap_tcp_fault, unwrap_tcp_length_zero_version,
}
use modbus_pp.Transport.FrameCodec.Rtu.{received_rtu, unwrap_rtu-wrap_rtu, unwrap_rtu_corrupted}

abbrev request : Pdu
request = record { function_code = 3; ext_header = none; payload = 0 ∷ 0 ∷ 0 ∷ 1 ∷ []; hmac = none }

request_bytes : Pdu.serialize request ≡ 3 ∷ 0 ∷ 0 ∷ 0 ∷ 1 ∷ []
unfolding Pdu.serialize
request_bytes = refl

unwrap_tcp-wrap_tcp_run :
    unwrap_tcp (wrap_tcp 1 request 7 ++ []) ≡ received 1 7 (Pdu.deserialize (Pdu.serialize request))
unwrap_tcp-wrap_tcp_run =
    unwrap_tcp-wrap_tcp 1 7 request [] (omega arith) (omega (arith, ap length request_bytes))

-- Eight bytes whose length field is 0.
abbrev zero_length : List ℕ
zero_length = 0 ∷ 1 ∷ 0 ∷ 0 ∷ 0 ∷ 0 ∷ 1 ∷ 3 ∷ []

zero_length-HasZeroLength : HasZeroLength zero_length
unfolding read read_word16 word16
zero_length-HasZeroLength = record {
  long_enough = omega arith;
  protocol_hi = refl;
  protocol_lo = refl;
  length_zero = refl;
}

unwrap_tcp_fault_example : (unwrap_tcp zero_length ≡ fault) ↔ HasZeroLength zero_length
unfolding read
unwrap_tcp_fault_example = unwrap_tcp_fault zero_length 3 refl refl

-- With an extended code and version 2, only bytes of the frame are read.
abbrev zero_length_extended : List ℕ
zero_length_extended = 0 ∷ 1 ∷ 0 ∷ 0 ∷ 0 ∷ 0 ∷ 1 ∷ 0x6E ∷ 2 ∷ []

zero_length_refused : unwrap_tcp zero_length_extended ≡ err unsupported_version
unfolding read read_word16 word16
zero_length_refused =
    unwrap_tcp_length_zero_version zero_length_extended 0x6E 2
      (record {
        long_enough = omega arith;
        protocol_hi = refl;
        protocol_lo = refl;
        length_zero = refl;
      })
      refl refl refl (omega arith)

unwrap_tcp_faults : unwrap_tcp zero_length ≡ fault
unwrap_tcp_faults = unwrap_tcp_fault_example.1 zero_length-HasZeroLength

request-AreBytes : AreBytes (1 ∷ Pdu.serialize request)
request-AreBytes = rw request_bytes (omega arith)

unwrap_rtu-wrap_rtu_run :
    unwrap_rtu (wrap_rtu 1 request) ≡ received_rtu 1 (Pdu.deserialize (Pdu.serialize request))
unwrap_rtu-wrap_rtu_run = unwrap_rtu-wrap_rtu 1 request request-AreBytes

third_byte : get_elem? (wrap_rtu 1 request) 2 ≡ some 0
unfolding wrap_rtu Pdu.serialize
third_byte = refl

unwrap_rtu_corrupted_example : unwrap_rtu (set (wrap_rtu 1 request) 2 0x10) ≡ err crc_mismatch
unwrap_rtu_corrupted_example =
    unwrap_rtu_corrupted 1 request 2 0 0x10 request-AreBytes
      (omega (arith, ap length request_bytes)) third_byte (omega arith) (omega arith)

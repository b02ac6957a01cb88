-- ===== src/Core/Pdu/Unbounded.antt =====
-- PDU::deserialize on a view whose size is the largest std::size_t, 2 ^ 64 - 1: each of its tests of
-- the size holds, so that only the bytes which are there bound it. A read behind them is a fault, and
-- so is a vector of all bytes of the view but the first, which no buffer has.
use modbus_pp.Common.{ℕ, ◌+◌, Option, none, some, List, ◌==◌, if◌then◌else◌}
use modbus_pp.Core.Error.{unsupported_version}
use modbus_pp.Core.Result.{Result, ◌>>=◌, ◌>>◌, guard, ok, fault}
use modbus_pp.Core.Span.{read, subspan, read_word16}
use modbus_pp.Core.FunctionCodes
use modbus_pp.Core.Timestamp
use modbus_pp.Core.Timestamp.{Timestamp}
use modbus_pp.Core.Pdu.{FrameHeader, default_header, Pdu, is_extended_code}

pub timestamp_unbounded : List ℕ → ℕ → ℕ → Result (Option Timestamp × ℕ)
timestamp_unbounded raw offset flags =
    if FunctionCodes.has_flag flags FunctionCodes.has_timestamp
    then (do bytes ← subspan raw offset 8; ok (some (Timestamp.deserialize bytes), offset + 8))
    else ok (none, offset)

pub hmac_unbounded : List ℕ → ℕ → ℕ → Result (Option (List ℕ))
hmac_unbounded raw offset flags =
    if FunctionCodes.has_flag flags FunctionCodes.has_hmac
    then (do digest ← subspan raw offset 32; ok (some digest))
    else ok none

-- From the extended function code on.
pub body_unbounded : List ℕ → ℕ → FrameHeader → ℕ → Result Pdu
body_unbounded raw fc hdr offset = do
  ext_fc ← read raw offset
  payload_length ← read_word16 raw (offset + 1)
  payload ← subspan raw (offset + 3) payload_length
  hmac ← hmac_unbounded raw (offset + 3 + payload_length) hdr.flags
  ok (record {
    function_code = fc;
    ext_header = some (record hdr { ext_function_code = ext_fc; payload_length = payload_length });
    payload = payload;
    hmac = hmac;
  })

unfoldable pub extended_unbounded : List ℕ → ℕ → Result Pdu
extended_unbounded raw fc = do
  version ← read raw 1
  guard (version == 1) unsupported_version
  flags ← read_word16 raw 2
  correlation_id ← read_word16 raw 4
  (timestamp, offset) ← timestamp_unbounded raw 6 flags
  let hdr = record default_header {
    version = version;
    flags = flags;
    correlation_id = correlation_id;
    timestamp = timestamp;
  }
  body_unbounded raw fc hdr offset

unfoldable pub deserialize_unbounded : List ℕ → Result Pdu
deserialize_unbounded raw = do
  fc ← read raw 0
  if is_extended_code fc then extended_unbounded raw fc else fault

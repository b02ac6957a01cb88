-- ===== src/Core/Pdu/Tests.antt =====
-- Runs of the unit codec, and its theorems at concrete inputs.
use modbus_pp.Common.{◌≡◌, refl, ◌≢◌, none, some, [], ◌∷◌, ◌++◌, arith, word16}
use modbus_pp.Common.Int.{to_u64, pos}
use modbus_pp.Core.Error.{unsupported_version, invalid_frame}
use modbus_pp.Core.Result.{ok, err, fault}
use modbus_pp.Core.Span.{read, read_word16}
use modbus_pp.Core.FunctionCodes
use modbus_pp.Core.Timestamp.{from_epoch_us}
use modbus_pp.Core.Pdu.{
  FrameHeader, default_header, make_standard, make_extended, serialize_extended, serialize,
  read_timestamp, read_body, deserialize_extended, deserialize,
}
use modbus_pp.Core.Pdu.Made.{IsUsable, deserialize-make_extended, deserialize-make_standard}
use modbus_pp.Core.Pdu.Safety.{deserialize-ne-fault}

abbrev discover_header : FrameHeader
discover_header = record default_header {
  correlation_id = 0x0102;
  ext_function_code = FunctionCodes.discover;
  timestamp = some (from_epoch_us (pos 5));
}

discover_bytes :
    serialize (make_extended discover_header (7 ∷ []) none)
    ≡ 0x6E ∷ 1 ∷ 0 ∷ 1 ∷ 1 ∷ 2 ∷ 0 ∷ 0 ∷ 0 ∷ 0 ∷ 0 ∷ 0 ∷ 0 ∷ 5 ∷ 8 ∷ 0 ∷ 1 ∷ 7 ∷ []
unfolding serialize serialize_extended make_extended modbus_pp.Core.Timestamp.serialize to_u64
discover_bytes = refl

-- A frame that ends inside of its payload is refused.
cut_short : deserialize (0x6E ∷ 1 ∷ 0 ∷ 0 ∷ 0 ∷ 0 ∷ 8 ∷ 0 ∷ 2 ∷ 7 ∷ []) ≡ err invalid_frame
unfolding deserialize deserialize_extended read_timestamp read_body read read_word16 word16
cut_short = refl

other_version : deserialize (0x6E ∷ 2 ∷ 0 ∷ 0 ∷ 0 ∷ 0 ∷ 8 ∷ 0 ∷ 0 ∷ []) ≡ err unsupported_version
unfolding deserialize deserialize_extended read
other_version = refl

discover_header-IsUsable : IsUsable discover_header (7 ∷ []) none
discover_header-IsUsable = record {
  version_one = refl;
  flags_fit = omega arith;
  correlation_fits = omega arith;
  payload_fits = omega arith;
  timestamp_valid = omega arith;
  digest_valid = tt;
  no_stray_timestamp = λ h. cc;
  no_stray_hmac = λ h. refl;
}

deserialize-make_extended_example :
    deserialize (serialize (make_extended discover_header (7 ∷ []) none) ++ (1 ∷ 2 ∷ []))
    ≡ ok (make_extended discover_header (7 ∷ []) none)
deserialize-make_extended_example =
    deserialize-make_extended discover_header (7 ∷ []) none (1 ∷ 2 ∷ []) discover_header-IsUsable

deserialize-make_standard_run :
    deserialize (serialize (make_standard 3 (0 ∷ 0 ∷ 0 ∷ 1 ∷ [])))
    ≡ ok (make_standard 3 (0 ∷ 0 ∷ 0 ∷ 1 ∷ []))
deserialize-make_standard_run = deserialize-make_standard 3 (0 ∷ 0 ∷ 0 ∷ 1 ∷ []) refl

deserialize-ne-fault_example : deserialize (0x6E ∷ 1 ∷ []) ≢ fault
deserialize-ne-fault_example = deserialize-ne-fault (0x6E ∷ 1 ∷ [])

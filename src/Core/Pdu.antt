-- ===== src/Core/Pdu.antt =====
-- src/core/pdu.cpp and include/modbus_pp/core/pdu.hpp: standard and extended protocol data units.
-- A digest is its list of 32 bytes, and a vector of bytes is a list.
pub mod Flags
pub mod RoundTrip
pub mod Made
pub mod Safety
pub mod Unbounded
mod Tests
use modbus_pp.Common.{
  ℕ, ◌+◌, ◌-◌, ◌%◌, ◌^◌, Bool, true, false, ◌||◌, Option, none, some, List, [], ◌∷◌, ◌++◌, leb,
  ◌==◌, if◌then◌else◌, length, hi_byte, lo_byte,
}
use modbus_pp.Core.Error.{unsupported_version, invalid_frame}
use modbus_pp.Core.Result.{Result, ◌>>=◌, ◌>>◌, guard, ok}
use modbus_pp.Core.Span.{read, subspan, read_word16}
use modbus_pp.Core.FunctionCodes
use modbus_pp.Core.Timestamp
use modbus_pp.Core.Timestamp.{Timestamp}

pub record FrameHeader : Type 0 where
  pub version : ℕ
  pub flags : ℕ
  pub correlation_id : ℕ
  pub timestamp : Option Timestamp
  pub ext_function_code : ℕ
  pub payload_length : ℕ

-- `FrameHeader hdr;` with its member initialisers.
abbrev pub default_header : FrameHeader
default_header = record {
  version = 1;
  flags = 0;
  correlation_id = 0;
  timestamp = none;
  ext_function_code = 0;
  payload_length = 0;
}

pub record Pdu : Type 0 where
  pub function_code : ℕ
  pub ext_header : Option FrameHeader
  pub payload : List ℕ
  pub hmac : Option (List ℕ)

abbrev pub has_some {ℓ} : {A : Type ℓ} → Option A → Bool
has_some none = false
has_some (some a) = true

abbrev is_extended : Pdu → Bool
is_extended pdu = has_some pdu.ext_header

unfoldable pub make_standard : ℕ → List ℕ → Pdu
make_standard fc data_bytes = record {
  function_code = fc;
  ext_header = none;
  payload = data_bytes;
  hmac = none;
}

-- `header.flags |= flag` where the member is there.
abbrev pub flag_if : Bool → ℕ → ℕ → ℕ
flag_if present flag flags = if present then FunctionCodes.set_flag flags flag else flags

unfoldable pub make_extended : FrameHeader → List ℕ → Option (List ℕ) → Pdu
make_extended header payload hmac =
    let stamped = flag_if (has_some header.timestamp) FunctionCodes.has_timestamp header.flags in
    let flags = flag_if (has_some hmac) FunctionCodes.has_hmac stamped in
    record {
      function_code = FunctionCodes.extended;
      ext_header = some (record header { flags = flags; payload_length = length payload % 2 ^ 16 });
      payload = payload;
      hmac = hmac;
    }

abbrev pub is_extended_code : ℕ → Bool
is_extended_code fc = fc == FunctionCodes.extended || fc == FunctionCodes.extended_stream

abbrev is_extended_frame : List ℕ → Bool
is_extended_frame [] = false
is_extended_frame (b ∷ raw) = is_extended_code b

-- An optional part is written when its flag is set and it is there.
abbrev pub optional_part : Bool → Option (List ℕ) → List ℕ
optional_part false part = []
optional_part true none = []
optional_part true (some bytes) = bytes

abbrev pub timestamp_bytes : Option Timestamp → Option (List ℕ)
timestamp_bytes none = none
timestamp_bytes (some t) = some (Timestamp.serialize t)

unfoldable pub serialize_extended : FrameHeader → List ℕ → Option (List ℕ) → List ℕ
serialize_extended hdr payload hmac =
    FunctionCodes.extended
    ∷ hdr.version
    ∷ hi_byte hdr.flags
    ∷ lo_byte hdr.flags
    ∷ hi_byte hdr.correlation_id
    ∷ lo_byte hdr.correlation_id
    ∷ (optional_part (FunctionCodes.has_flag hdr.flags FunctionCodes.has_timestamp)
          (timestamp_bytes hdr.timestamp)
        ++ (hdr.ext_function_code
            ∷ hi_byte hdr.payload_length
            ∷ lo_byte hdr.payload_length
            ∷ (payload
                ++ optional_part (FunctionCodes.has_flag hdr.flags FunctionCodes.has_hmac) hmac)))

unfoldable pub serialize : Pdu → List ℕ
serialize pdu = elim pdu.ext_header [
  | none ↦ pdu.function_code ∷ pdu.payload
  | some hdr ↦ serialize_extended hdr pdu.payload pdu.hmac
]

-- The optional timestamp at `offset`, with the offset behind it.
pub read_timestamp : List ℕ → ℕ → ℕ → Result (Option Timestamp × ℕ)
read_timestamp raw offset flags =
    if FunctionCodes.has_flag flags FunctionCodes.has_timestamp
    then (do
      guard (leb (offset + 8) (length raw)) invalid_frame
      bytes ← subspan raw offset 8
      ok (some (Timestamp.deserialize bytes), offset + 8))
    else ok (none, offset)

pub read_hmac : List ℕ → ℕ → ℕ → Result (Option (List ℕ))
read_hmac raw offset flags =
    if FunctionCodes.has_flag flags FunctionCodes.has_hmac
    then (do
      guard (leb (offset + 32) (length raw)) invalid_frame
      digest ← subspan raw offset 32
      ok (some digest))
    else ok none

-- From the extended function code on.
pub read_body : List ℕ → ℕ → FrameHeader → ℕ → Result Pdu
read_body raw fc hdr offset = do
  guard (leb (offset + 3) (length raw)) invalid_frame
  ext_fc ← read raw offset
  payload_length ← read_word16 raw (offset + 1)
  guard (leb (offset + 3 + payload_length) (length raw)) invalid_frame
  payload ← subspan raw (offset + 3) payload_length
  hmac ← read_hmac raw (offset + 3 + payload_length) hdr.flags
  ok (record {
    function_code = fc;
    ext_header = some (record hdr { ext_function_code = ext_fc; payload_length = payload_length });
    payload = payload;
    hmac = hmac;
  })

abbrev min_header : ℕ
min_header = 9

pub deserialize_extended : List ℕ → ℕ → Result Pdu
deserialize_extended raw fc = do
  guard (leb min_header (length raw)) invalid_frame
  version ← read raw 1
  guard (version == 1) unsupported_version
  flags ← read_word16 raw 2
  correlation_id ← read_word16 raw 4
  (timestamp, offset) ← read_timestamp raw 6 flags
  let hdr = record default_header {
    version = version;
    flags = flags;
    correlation_id = correlation_id;
    timestamp = timestamp;
  }
  read_body raw fc hdr offset

unfoldable pub deserialize : List ℕ → Result Pdu
deserialize raw = do
  guard (leb 1 (length raw)) invalid_frame
  fc ← read raw 0
  if is_extended_code fc
      then deserialize_extended raw fc
      else (do data_bytes ← subspan raw 1 (length raw - 1); ok (make_standard fc data_bytes))

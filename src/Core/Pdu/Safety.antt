-- ===== src/Core/Pdu/Safety.antt =====
-- PDU::deserialize stays inside of its input.
use modbus_pp.Common.{ℕ, ◌+◌, ◌-◌, ◌≢◌, List, arith, length}
use modbus_pp.Core.Result.{fault}
use modbus_pp.Core.Span.Bounds.{read_fault, subspan_fault, read_word16_fault}
use modbus_pp.Core.Pdu.{
  FrameHeader, read_timestamp, read_hmac, read_body, deserialize_extended, deserialize,
}

read_timestamp-ne-fault :
    (raw : List ℕ) (offset flags : ℕ) → read_timestamp raw offset flags ≢ fault
unfolding read_timestamp
read_timestamp-ne-fault raw offset flags = ground (arith, subspan_fault raw offset 8)

read_hmac-ne-fault : (raw : List ℕ) (offset flags : ℕ) → read_hmac raw offset flags ≢ fault
unfolding read_hmac
read_hmac-ne-fault raw offset flags = ground (arith, subspan_fault raw offset 32)

read_body-ne-fault :
    (raw : List ℕ) (fc : ℕ) (hdr : FrameHeader) (offset : ℕ) → read_body raw fc hdr offset ≢ fault
unfolding read_body
read_body-ne-fault raw fc hdr offset = grind (
  arith,
  read_fault raw offset,
  read_word16_fault raw (offset + 1),
  subspan_fault raw (offset + 3),
  read_hmac-ne-fault raw,
)

deserialize_extended-ne-fault : (raw : List ℕ) (fc : ℕ) → deserialize_extended raw fc ≢ fault
unfolding deserialize_extended
deserialize_extended-ne-fault raw fc = grind (
  arith,
  read_fault raw 1,
  read_word16_fault raw 2,
  read_word16_fault raw 4,
  read_timestamp-ne-fault raw 6,
  read_body-ne-fault raw fc,
)

-- On every input, well formed or not, `deserialize` reads no byte outside of it.
pub deserialize-ne-fault : (raw : List ℕ) → deserialize raw ≢ fault
unfolding deserialize
deserialize-ne-fault raw = grind (
  arith,
  read_fault raw 0,
  subspan_fault raw 1 (length raw - 1),
  deserialize_extended-ne-fault raw,
)

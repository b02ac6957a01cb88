-- ===== src/Transport/FrameCodec.antt =====
-- src/transport/frame_codec.cpp: application data units for TCP (MBAP header) and for RTU (CRC16).
pub mod Tcp
pub mod Rtu
mod Tests
use modbus_pp.Common.{
  ℕ, zero, suc, ◌+◌, ◌-◌, ◌%◌, ◌^◌, ◌&&◌, List, [], ◌∷◌, ◌++◌, leb, ◌==◌, length, drop, hi_byte,
  lo_byte, word16,
}
use modbus_pp.Core.Error.{invalid_frame, crc_mismatch}
use modbus_pp.Core.Result.{Result, ◌>>=◌, ◌>>◌, guard, ok}
use modbus_pp.Core.Span.{read, subspan, read_word16}
use modbus_pp.Core.Pdu
use modbus_pp.Core.Pdu.Unbounded
use modbus_pp.Core.Pdu.{Pdu}
use modbus_pp.Transport.Crc.{crc16}

unfoldable pub wrap_tcp : ℕ → Pdu → ℕ → List ℕ
wrap_tcp unit_id pdu transaction_id =
    let pdu_bytes = Pdu.serialize pdu in
    let mbap_length = (1 + length pdu_bytes) % 2 ^ 16 in
    hi_byte transaction_id
    ∷ lo_byte transaction_id
    ∷ 0x00
    ∷ 0x00
    ∷ hi_byte mbap_length
    ∷ lo_byte mbap_length
    ∷ unit_id
    ∷ pdu_bytes

-- The unit behind the header. `static_cast<std::size_t>(length - 1)` is the largest size where the
-- length is 0: the view is built all the same, and `PDU::deserialize` reads what is there.
abbrev pub unwrap_unit : List ℕ → ℕ → Result Pdu
unwrap_unit frame zero = Unbounded.deserialize_unbounded (drop 7 frame)
unwrap_unit frame (suc size) = do pdu_bytes ← subspan frame 7 size; Pdu.deserialize pdu_bytes

unfoldable pub unwrap_tcp : List ℕ → Result (ℕ × Pdu × ℕ)
unwrap_tcp frame = do
  guard (leb 8 (length frame)) invalid_frame
  transaction_id ← read_word16 frame 0
  protocol_hi ← read frame 2
  protocol_lo ← read frame 3
  guard (protocol_hi == 0x00 && protocol_lo == 0x00) invalid_frame
  mbap_length ← read_word16 frame 4
  guard (leb (6 + mbap_length) (length frame)) invalid_frame
  unit_id ← read frame 6
  pdu ← unwrap_unit frame mbap_length
  ok (unit_id, pdu, transaction_id)

unfoldable pub wrap_rtu : ℕ → Pdu → List ℕ
wrap_rtu unit_id pdu =
    let frame = unit_id ∷ Pdu.serialize pdu in
    let crc = crc16 frame in frame ++ (lo_byte crc ∷ hi_byte crc ∷ [])

-- The received checksum is stored low byte first.
pub unwrap_rtu : List ℕ → Result (ℕ × Pdu)
unwrap_rtu frame = do
  guard (leb 4 (length frame)) invalid_frame
  let data_len = length frame - 2
  checked ← subspan frame 0 data_len
  lo ← read frame data_len
  hi ← read frame (data_len + 1)
  guard (crc16 checked == word16 hi lo) crc_mismatch
  unit_id ← read frame 0
  pdu_bytes ← subspan frame 1 (data_len - 1)
  pdu ← Pdu.deserialize pdu_bytes
  ok (unit_id, pdu)

-- ===== src/Transport/Crc.antt =====
-- FrameCodec::crc16 of src/transport/frame_codec.cpp (polynomial 0xA001).
pub mod Laws
pub mod Detection
mod Tests
use modbus_pp.Common.{ℕ, zero, suc, ◌/◌, bit_and, bit_xor, List, [], ◌∷◌, ◌==◌, if◌then◌else◌}

-- One round of the inner loop.
pub crc_bit : ℕ → ℕ
crc_bit crc = if bit_and crc 0x0001 == 0 then crc / 2 else bit_xor (crc / 2) 0xA001

-- `for (int bit = 0; bit < 8; ++bit)`, by the rounds that are left.
pub crc_bits : ℕ → ℕ → ℕ
crc_bits zero crc = crc
crc_bits (suc n) crc = crc_bits n (crc_bit crc)

pub crc_byte : ℕ → ℕ → ℕ
crc_byte crc b = crc_bits 8 (bit_xor crc b)

pub crc_loop : ℕ → List ℕ → ℕ
crc_loop crc [] = crc
crc_loop crc (b ∷ bytes) = crc_loop (crc_byte crc b) bytes

pub crc16 : List ℕ → ℕ
crc16 bytes = crc_loop 0xFFFF bytes

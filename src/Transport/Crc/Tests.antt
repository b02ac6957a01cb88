-- ===== src/Transport/Crc/Tests.antt =====
-- Runs of the checksum, and its theorems at concrete inputs.
use modbus_pp.Common.{ℕ, ◌≡◌, refl, ◌≢◌, List, [], ◌∷◌, ◌++◌, arith, hi_byte, lo_byte}
use modbus_pp.Transport.Crc.{crc_bit, crc_bits, crc_byte, crc_loop, crc16}
use modbus_pp.Transport.Crc.Laws.{crc16_residue}
use modbus_pp.Transport.Crc.Detection.{crc16_one_byte}

-- The request of tests/unit/test_frame_codec.cpp style: read one register of unit 1.
abbrev request : List ℕ
request = 1 ∷ 3 ∷ 0 ∷ 0 ∷ 0 ∷ 1 ∷ []

crc_request : crc16 request ≡ 0x0A84
unfolding crc16 crc_loop crc_byte crc_bits crc_bit
crc_request = refl

crc16_residue_run : crc16 (request ++ (lo_byte (crc16 request) ∷ hi_byte (crc16 request) ∷ [])) ≡ 0
crc16_residue_run = crc16_residue request (omega arith)

crc16_one_byte_run : crc16 (1 ∷ 3 ∷ 0 ∷ 0 ∷ 0 ∷ 1 ∷ []) ≢ crc16 (1 ∷ 3 ∷ 0 ∷ 64 ∷ 0 ∷ 1 ∷ [])
crc16_one_byte_run =
    crc16_one_byte (1 ∷ 3 ∷ 0 ∷ []) 0 64 (0 ∷ 1 ∷ []) (omega arith) (omega arith) (omega arith)

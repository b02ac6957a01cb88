-- ===== src/RegisterMap/Batch/Response.antt =====
-- BatchResponse of include/modbus_pp/register_map/batch_request.hpp: its results, and their bytes.
pub mod Codec
use modbus_pp.Common.{
  ℕ, zero, suc, ◌+◌, ◌*◌, ◌%◌, ◌^◌, Bool, true, ◌&&◌, Option, none, some, List, [], ◌∷◌, ◌++◌, leb,
  ◌==◌, if◌then◌else◌, length, hi_byte, lo_byte, register_bytes,
}
use modbus_pp.Core.Error.{ErrorCode, success, deserialization_failed}
use modbus_pp.Core.Result.{Result, ◌>>=◌, ◌>>◌, map_result, guard, ok}
use modbus_pp.Core.Span.{read, read_word16, read_registers}

pub record ItemResult : Type 0 where
  pub address : ℕ
  pub registers : List ℕ
  pub status : ErrorCode

abbrev pub BatchResponse : Type 0
BatchResponse = List ItemResult

abbrev add_result : BatchResponse → ℕ → List ℕ → ErrorCode → BatchResponse
add_result results addr regs status =
    results ++ (record { address = addr; registers = regs; status = status } ∷ [])

abbrev all_succeeded : BatchResponse → Bool
all_succeeded [] = true
all_succeeded (r ∷ results) = r.status == success && all_succeeded results

abbrev find : BatchResponse → ℕ → Option ItemResult
find [] addr = none
find (r ∷ results) addr = if r.address == addr then some r else find results addr

-- `status.value()` is cut to a byte.
unfoldable pub result_bytes : ItemResult → List ℕ
result_bytes r =
    let reg_count = length r.registers % 2 ^ 16 in
    hi_byte r.address
    ∷ lo_byte r.address
    ∷ (r.status % 2 ^ 8)
    ∷ hi_byte reg_count
    ∷ lo_byte reg_count
    ∷ register_bytes r.registers

unfoldable pub results_bytes : BatchResponse → List ℕ
results_bytes [] = []
results_bytes (r ∷ results) = result_bytes r ++ results_bytes results

unfoldable pub serialize : BatchResponse → List ℕ
serialize results = let n = length results % 2 ^ 16 in hi_byte n ∷ lo_byte n ∷ results_bytes results

-- One result at `offset`, with the offset behind it.
pub read_result : List ℕ → ℕ → Result (ItemResult × ℕ)
read_result raw offset = do
  guard (leb (offset + 5) (length raw)) deserialization_failed
  addr ← read_word16 raw offset
  status ← read raw (offset + 2)
  reg_count ← read_word16 raw (offset + 3)
  guard (leb (offset + 5 + reg_count * 2) (length raw)) deserialization_failed
  regs ← read_registers reg_count raw (offset + 5)
  ok (record { address = addr; registers = regs; status = status }, offset + 5 + reg_count * 2)

pub read_results : ℕ → List ℕ → ℕ → Result BatchResponse
read_results zero raw offset = ok []
read_results (suc n) raw offset =
    read_result raw offset >>= λ r. map_result (◌∷◌ r.0) (read_results n raw r.1)

pub deserialize : List ℕ → Result BatchResponse
deserialize raw = do
  guard (leb 2 (length raw)) deserialization_failed
  item_count ← read_word16 raw 0
  read_results item_count raw 2

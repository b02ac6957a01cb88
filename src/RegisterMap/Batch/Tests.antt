-- ===== src/RegisterMap/Batch/Tests.antt =====
-- The theorems on batch requests and responses at concrete inputs.
use mathlib.Core.List.Perm
use modbus_pp.Common.{ℕ, ◌≤◌, ◌≡◌, refl, ◌≢◌, true, false, [], ◌∷◌, ◌++◌, arith, length, All}
use modbus_pp.Core.Result.{ok, fault}
use modbus_pp.RegisterMap.Batch
use modbus_pp.RegisterMap.Batch.{BatchItem, BatchRequest, merged, merge_loop, merge_all, optimized}
use modbus_pp.RegisterMap.Batch.Codec.{batch_deserialize-serialize, batch_deserialize-ne-fault}
use modbus_pp.RegisterMap.Batch.Optimize.{
  item_covers, covers, optimized-covers, length-optimized-le, merged_drops_last_register,
}
use modbus_pp.RegisterMap.Batch.Response
use modbus_pp.RegisterMap.Batch.Response.{BatchResponse}
use modbus_pp.RegisterMap.Batch.Response.Codec.{
  ResultFits, response_deserialize-serialize, response_deserialize-ne-fault,
}

abbrev item : ℕ → ℕ → ℕ → BatchItem
item addr count order = record {
  start_address = addr;
  count = count;
  register_type = 0;
  byte_order = order;
}

abbrev two_items : BatchRequest
two_items = item 10 4 0 ∷ item 12 6 0 ∷ []

-- Two overlapping ranges become one.
merged_items : merge_all two_items ≡ item 10 8 0 ∷ []
unfolding merge_all merge_loop merged
merged_items = refl

batch_deserialize-serialize_run :
    Batch.deserialize (Batch.serialize two_items ++ (7 ∷ [])) ≡ ok two_items
batch_deserialize-serialize_run =
    batch_deserialize-serialize two_items (7 ∷ []) (omega arith)
      ((omega arith, omega arith), ((omega arith, omega arith), tt))

batch_deserialize-ne-fault_run : Batch.deserialize (0 ∷ 9 ∷ 1 ∷ []) ≢ fault
batch_deserialize-ne-fault_run = batch_deserialize-ne-fault (0 ∷ 9 ∷ 1 ∷ [])

optimized-covers_example :
    covers 0 13 (optimized (λ items. items) two_items) ≡ covers 0 13 two_items
optimized-covers_example =
    optimized-covers (λ items. items) two_items (Perm.refl two_items)
      (omega arith, (omega arith, tt)) (omega arith, (omega arith, tt)) 0 13

length-optimized-le_run : length (optimized (λ items. items) two_items) ≤ length two_items
length-optimized-le_run = length-optimized-le (λ items. items) two_items (Perm.refl two_items)

merged_drops_last_register_run :
    (item_covers 0 65535 (item 65534 2 0) ≡ true)
    × (item_covers 0 65535 (merged (item 65530 4 0) (item 65534 2 0)) ≡ false)
merged_drops_last_register_run =
    merged_drops_last_register (item 65530 4 0) (item 65534 2 0) (omega arith) (omega arith) refl
      (omega arith) refl

abbrev two_results : BatchResponse
two_results =
    record { address = 10; registers = 0x1234 ∷ 7 ∷ []; status = 0 }
    ∷ record { address = 600; registers = []; status = 2 }
    ∷ []

response_deserialize-serialize_run :
    Response.deserialize (Response.serialize two_results ++ (1 ∷ [])) ≡ ok two_results
response_deserialize-serialize_run =
    response_deserialize-serialize two_results (1 ∷ []) (omega arith) two_results_fit
  where
    two_results_fit : All ResultFits two_results
    two_results_fit = (
      (omega arith, omega arith, omega arith, (omega arith, (omega arith, tt))),
      ((omega arith, omega arith, omega arith, tt), tt),
    )

response_deserialize-ne-fault_run : Response.deserialize (0 ∷ 1 ∷ 0 ∷ 0 ∷ []) ≢ fault
response_deserialize-ne-fault_run = response_deserialize-ne-fault (0 ∷ 1 ∷ 0 ∷ 0 ∷ [])

-- ===== src/RegisterMap/Batch.antt =====
-- include/modbus_pp/register_map/batch_request.hpp. A request is its list of items; the register
-- type and the byte order of an item are the numbers of their enumerations.
pub mod Codec
pub mod Optimize
pub mod Response
mod Tests
use modbus_pp.Common.{
  ℕ, zero, suc, ◌+◌, ◌-◌, ◌*◌, ◌%◌, ◌^◌, max, Bool, true, false, ◌&&◌, List, [], ◌∷◌, ◌++◌, leb,
  ◌==◌, if◌then◌else◌, length, hi_byte, lo_byte,
}
use modbus_pp.Core.Error.{deserialization_failed}
use modbus_pp.Core.Result.{Result, ◌>>=◌, ◌>>◌, guard, ok}
use modbus_pp.Core.Span.{read, read_word16}

pub record BatchItem : Type 0 where
  pub start_address : ℕ
  pub count : ℕ
  pub register_type : ℕ
  pub byte_order : ℕ

abbrev pub BatchRequest : Type 0
BatchRequest = List BatchItem

abbrev add : BatchRequest → ℕ → ℕ → ℕ → ℕ → BatchRequest
add items addr count register_type order =
    items
    ++ (record {
      start_address = addr;
      count = count;
      register_type = register_type;
      byte_order = order;
    }
        ∷ [])

-- `RegisterType::UInt16`
abbrev uint16_type : ℕ
uint16_type = 0

-- The sum wraps as `quantity_t` does.
abbrev total_registers_from : ℕ → BatchRequest → ℕ
total_registers_from total [] = total
total_registers_from total (item ∷ items) =
    total_registers_from ((total + item.count) % 2 ^ 16) items

abbrev total_registers : BatchRequest → ℕ
total_registers items = total_registers_from 0 items

unfoldable pub item_bytes : BatchItem → List ℕ
item_bytes item =
    hi_byte item.start_address
    ∷ lo_byte item.start_address
    ∷ hi_byte item.count
    ∷ lo_byte item.count
    ∷ item.register_type
    ∷ item.byte_order
    ∷ []

unfoldable pub items_bytes : BatchRequest → List ℕ
items_bytes [] = []
items_bytes (item ∷ items) = item_bytes item ++ items_bytes items

unfoldable pub serialize : BatchRequest → List ℕ
serialize items = let n = length items % 2 ^ 16 in hi_byte n ∷ lo_byte n ∷ items_bytes items

pub read_item : List ℕ → ℕ → Result BatchItem
read_item raw offset = do
  start_address ← read_word16 raw offset
  count ← read_word16 raw (offset + 2)
  register_type ← read raw (offset + 4)
  byte_order ← read raw (offset + 5)
  ok (record {
    start_address = start_address;
    count = count;
    register_type = register_type;
    byte_order = byte_order;
  })

pub read_items : ℕ → List ℕ → ℕ → Result BatchRequest
read_items zero raw offset = ok []
read_items (suc n) raw offset = do
  item ← read_item raw offset
  items ← read_items n raw (offset + 6)
  ok (item ∷ items)

unfoldable pub deserialize : List ℕ → Result BatchRequest
deserialize raw = do
  guard (leb 2 (length raw)) deserialization_failed
  item_count ← read_word16 raw 0
  guard (leb (2 + item_count * 6) (length raw)) deserialization_failed
  read_items item_count raw 2

-- The merging loop: `last` is the back of the result, the list is what is left of `sorted`.
abbrev end_address : BatchItem → ℕ
end_address item = (item.start_address + item.count) % 2 ^ 16

abbrev pub mergeable : BatchItem → BatchItem → Bool
mergeable last curr =
    leb curr.start_address (end_address last) && last.byte_order == curr.byte_order

pub merged : BatchItem → BatchItem → BatchItem
merged last curr = record last {
  count = (max (end_address last) (end_address curr) + 2 ^ 16 - last.start_address) % 2 ^ 16;
  register_type = uint16_type;
}

pub merge_loop : BatchItem → List BatchItem → BatchRequest
merge_loop last [] = last ∷ []
merge_loop last (curr ∷ rest) = elim (mergeable last curr) [
  | true ↦ merge_loop (merged last curr) rest
  | false ↦ last ∷ merge_loop curr rest
]

pub merge_all : List BatchItem → BatchRequest
merge_all [] = []
merge_all (first ∷ rest) = merge_loop first rest

-- `sort` is `std::sort` by start address.
pub optimized : (List BatchItem → List BatchItem) → BatchRequest → BatchRequest
optimized sort items = if leb (length items) 1 then items else merge_all (sort items)

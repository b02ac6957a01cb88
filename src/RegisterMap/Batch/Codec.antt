-- ===== src/RegisterMap/Batch/Codec.antt =====
-- BatchRequest::serialize and BatchRequest::deserialize.
use modbus_pp.Common.{
  ℕ, zero, suc, ◌+◌, ◌*◌, ◌%◌, ◌^◌, ◌≤◌, ◌<◌, ◌≡◌, refl, sym, ap, ap₂, ◌∙◌, ◌≢◌, true, List, [],
  ◌∷◌, ◌++◌, append_assoc, arith, leb, le→leb, length, All, length-append, IsWord16, hi_byte,
  lo_byte,
}
use modbus_pp.Core.Result.{ok, fault}
use modbus_pp.Core.Span.{read, read_word16}
use modbus_pp.Core.Span.Append.{
  read-append, read_word16-append, read_word16_here, read_word16_front,
}
use modbus_pp.Core.Span.Bounds.{read_fault, read_word16_fault}
use modbus_pp.RegisterMap.Batch.{
  BatchItem, BatchRequest, item_bytes, items_bytes, serialize, read_item, read_items, deserialize,
}

abbrev ItemFits : BatchItem → Type 0
ItemFits item = IsWord16 item.start_address × IsWord16 item.count

read_item_written :
    (pre : List ℕ) (item : BatchItem) (rest : List ℕ)
    → ItemFits item
    → read_item (pre ++ (item_bytes item ++ rest)) (length pre) ≡ ok item
unfolding read_item item_bytes
read_item_written pre item rest h =
    let body = item_bytes item ++ rest in
    let tail = item.register_type ∷ item.byte_order ∷ rest in
    let address : read_word16 (pre ++ body) (length pre) ≡ ok item.start_address =
      read_word16_here pre body ∙ read_word16_front item.start_address _ h.0 in
    let count : read_word16 (pre ++ body) (length pre + 2) ≡ ok item.count =
      read_word16-append pre body 2
      ∙ (read_word16-append (hi_byte item.start_address ∷ lo_byte item.start_address ∷ [])
            (hi_byte item.count ∷ lo_byte item.count ∷ tail) 0
          ∙ read_word16_front item.count tail h.1) in
    let register_type : read (pre ++ body) (length pre + 4) ≡ ok item.register_type =
      read-append pre body 4 ∙ unfold read in refl in
    let order : read (pre ++ body) (length pre + 5) ≡ ok item.byte_order =
      read-append pre body 5 ∙ unfold read in refl in
    rw (address, count, register_type, order)

length-items_bytes : (items : BatchRequest) → length (items_bytes items) ≡ length items * 6
unfolding items_bytes item_bytes
length-items_bytes [] = omega arith
length-items_bytes (item ∷ items) = omega (arith, length-items_bytes items)

read_items_written :
    (pre : List ℕ) (items : BatchRequest) (rest : List ℕ)
    → All ItemFits items
    → read_items (length items) (pre ++ (items_bytes items ++ rest)) (length pre) ≡ ok items
unfolding read_items items_bytes
read_items_written pre [] rest h = refl
read_items_written pre (item ∷ items) rest h =
    let whole = pre ++ ((item_bytes item ++ items_bytes items) ++ rest) in
    let split : whole ≡ pre ++ (item_bytes item ++ (items_bytes items ++ rest)) =
      ap (◌++◌ pre) (append_assoc (item_bytes item) (items_bytes items) rest) in
    let first : read_item whole (length pre) ≡ ok item =
      ap (λ w. read_item w (length pre)) split
      ∙ read_item_written pre item (items_bytes items ++ rest) h.0 in
    let others : read_items (length items) whole (length pre + 6) ≡ ok items =
      ap₂ (read_items (length items))
        (split ∙ sym (append_assoc pre (item_bytes item) (items_bytes items ++ rest)))
        (omega (arith, length-append pre (item_bytes item), six item))
      ∙ read_items_written (pre ++ item_bytes item) items rest h.1 in
    rw (first, others)
  where
    six : (item : BatchItem) → length (item_bytes item) ≡ 6
    six item = unfold item_bytes in refl

-- A request of fewer than 65536 items, whose addresses and counts are 16-bit words, is read back
-- from its bytes, whatever follows them.
pub batch_deserialize-serialize :
    (items : BatchRequest) (rest : List ℕ)
    → length items < 2 ^ 16
    → All ItemFits items
    → deserialize (serialize items ++ rest) ≡ ok items
unfolding deserialize serialize
batch_deserialize-serialize items rest small fits =
    let n = length items % 2 ^ 16 in
    let raw = hi_byte n ∷ lo_byte n ∷ (items_bytes items ++ rest) in
    let same : n ≡ length items = omega arith in
    let size : length raw ≡ 2 + length items * 6 + length rest =
      omega (arith, length-append (items_bytes items) rest, length-items_bytes items) in
    let enough : leb 2 (length raw) ≡ true = le→leb _ _ (omega arith) in
    let counted : read_word16 raw 0 ≡ ok n = read_word16_front n _ (omega arith) in
    let room : leb (2 + n * 6) (length raw) ≡ true = le→leb _ _ (omega arith) in
    rw (enough, counted, room)
      (ap (λ k. read_items k raw 2) same
        ∙ read_items_written (hi_byte n ∷ lo_byte n ∷ []) items rest fits)

read_items_fault :
    (n : ℕ) (raw : List ℕ) (offset : ℕ)
    → offset + n * 6 ≤ length raw
    → read_items n raw offset ≢ fault
unfolding read_items read_item
read_items_fault zero raw offset h = λ p. cc
read_items_fault (suc n) raw offset h = ground (
  arith,
  read_word16_fault raw offset,
  read_word16_fault raw (offset + 2),
  read_fault raw (offset + 4),
  read_fault raw (offset + 5),
  read_items_fault n raw (offset + 6),
)

-- On every input `deserialize` reads no byte outside of it.
pub batch_deserialize-ne-fault : (raw : List ℕ) → deserialize raw ≢ fault
unfolding deserialize
batch_deserialize-ne-fault raw =
    grind (arith, read_word16_fault raw 0, λ (n : ℕ). read_items_fault n raw 2)

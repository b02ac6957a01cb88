-- ===== src/RegisterMap/Batch/Response/Codec.antt =====
-- BatchResponse::serialize and BatchResponse::deserialize.
use modbus_pp.Common.{
  ℕ, zero, suc, ◌+◌, ◌*◌, ◌%◌, ◌^◌, ◌≤◌, ◌<◌, ◌≡◌, refl, sym, ap, ap₂, ◌∙◌, ◌≢◌, true, List, [],
  ◌∷◌, ◌++◌, append_assoc, arith, leb, le→leb, length, All, length-append, IsByte, IsWord16,
  hi_byte, lo_byte, register_bytes, length-register_bytes,
}
use modbus_pp.Core.Result.{Result, ◌>>=◌, map_result, ok, err, fault}
use modbus_pp.Core.Span.{read, read_word16, read_registers}
use modbus_pp.Core.Span.Append.{
  read-append, read_word16-append, read_word16_here, read_word16_front, read_registers_written,
}
use modbus_pp.Core.Span.Bounds.{read_fault, read_word16_fault}
use modbus_pp.RegisterMap.Batch.Response.{
  ItemResult, BatchResponse, result_bytes, results_bytes, serialize, read_result, read_results,
  deserialize,
}

abbrev pub ResultFits : ItemResult → Type 0
ResultFits r =
    IsWord16 r.address × IsByte r.status × (length r.registers < 2 ^ 16) × All IsWord16 r.registers

read_result_written :
    (pre : List ℕ) (r : ItemResult) (rest : List ℕ)
    → ResultFits r
    → read_result (pre ++ (result_bytes r ++ rest)) (length pre)
      ≡ ok (r, length (pre ++ result_bytes r))
unfolding read_result result_bytes
read_result_written pre r rest h =
    let n = length r.registers % 2 ^ 16 in
    let address_bytes = hi_byte r.address ∷ lo_byte r.address ∷ [] in
    let head =
      hi_byte r.address ∷ lo_byte r.address ∷ (r.status % 2 ^ 8) ∷ hi_byte n ∷ lo_byte n ∷ [] in
    let regs = register_bytes r.registers in
    let body = head ++ (regs ++ rest) in
    let raw = pre ++ body in
    let counted : n ≡ length r.registers = omega (arith, h.2) in
    let size : length raw ≡ length pre + 5 + 2 * length r.registers + length rest =
      omega (
        arith,
        length-append pre body,
        length-append regs rest,
        length-register_bytes r.registers,
      ) in
    let enough : leb (length pre + 5) (length raw) ≡ true = le→leb _ _ (omega arith) in
    let address : read_word16 raw (length pre) ≡ ok r.address =
      read_word16_here pre body ∙ read_word16_front r.address _ h.0 in
    let status : read raw (length pre + 2) ≡ ok r.status =
      read-append pre body 2 ∙ unfold read in ap ok (status_kept r.status h.1) in
    let count : read_word16 raw (length pre + 3) ≡ ok n =
      read_word16-append pre body 3
      ∙ (read_word16-append (hi_byte r.address ∷ lo_byte r.address ∷ (r.status % 2 ^ 8) ∷ [])
            (hi_byte n ∷ lo_byte n ∷ (regs ++ rest)) 0
          ∙ read_word16_front n (regs ++ rest) (omega arith)) in
    let room : leb (length pre + 5 + n * 2) (length raw) ≡ true = le→leb _ _ (omega arith) in
    let registers : read_registers n raw (length pre + 5) ≡ ok r.registers =
      ap (λ k. read_registers k raw (length pre + 5)) counted
      ∙ ap₂ (read_registers (length r.registers)) (sym (append_assoc pre head (regs ++ rest)))
          (omega (arith, length-append pre head))
      ∙ read_registers_written (pre ++ head) r.registers rest h.3 in
    let behind : length pre + 5 + n * 2 ≡ length (pre ++ (head ++ regs)) =
      omega (arith, length-append pre (head ++ regs), length-register_bytes r.registers) in
    rw (enough, address, status, count, room, registers) (ap (λ (k : ℕ). ok (r, k)) behind)
  where
    status_kept : (s : ℕ) → IsByte s → s % 2 ^ 8 ≡ s
    status_kept s h = omega arith

read_results_written :
    (pre : List ℕ) (results : BatchResponse) (rest : List ℕ)
    → All ResultFits results
    → read_results (length results) (pre ++ (results_bytes results ++ rest)) (length pre)
      ≡ ok results
unfolding read_results results_bytes
read_results_written pre [] rest h = refl
read_results_written pre (r ∷ results) rest h =
    let whole = pre ++ ((result_bytes r ++ results_bytes results) ++ rest) in
    let split : whole ≡ pre ++ (result_bytes r ++ (results_bytes results ++ rest)) =
      ap (◌++◌ pre) (append_assoc (result_bytes r) (results_bytes results) rest) in
    let first : read_result whole (length pre) ≡ ok (r, length (pre ++ result_bytes r)) =
      ap (λ w. read_result w (length pre)) split
      ∙ read_result_written pre r (results_bytes results ++ rest) h.0 in
    let others : read_results (length results) whole (length (pre ++ result_bytes r)) ≡ ok results =
      ap (λ w. read_results (length results) w (length (pre ++ result_bytes r)))
        (split ∙ sym (append_assoc pre (result_bytes r) (results_bytes results ++ rest)))
      ∙ read_results_written (pre ++ result_bytes r) results rest h.1 in
    rw (first, others)

-- A response of fewer than 65536 results, each with a 16-bit address, a status of one byte and
-- fewer than 65536 registers of 16 bits, is read back from its bytes, whatever follows them.
pub response_deserialize-serialize :
    (results : BatchResponse) (rest : List ℕ)
    → length results < 2 ^ 16
    → All ResultFits results
    → deserialize (serialize results ++ rest) ≡ ok results
unfolding deserialize serialize
response_deserialize-serialize results rest small fits =
    let n = length results % 2 ^ 16 in
    let raw = hi_byte n ∷ lo_byte n ∷ (results_bytes results ++ rest) in
    let same : n ≡ length results = omega arith in
    let enough : leb 2 (length raw) ≡ true = le→leb _ _ (omega arith) in
    let counted : read_word16 raw 0 ≡ ok n = read_word16_front n _ (omega arith) in
    rw (enough, counted)
      (ap (λ k. read_results k raw 2) same
        ∙ read_results_written (hi_byte n ∷ lo_byte n ∷ []) results rest fits)

read_registers_fault :
    (n : ℕ) (raw : List ℕ) (offset : ℕ)
    → offset + n * 2 ≤ length raw
    → read_registers n raw offset ≢ fault
unfolding read_registers
read_registers_fault zero raw offset h = λ p. cc
read_registers_fault (suc n) raw offset h =
    ground (arith, read_word16_fault raw offset, read_registers_fault n raw (offset + 2))

read_result-ne-fault : (raw : List ℕ) (offset : ℕ) → read_result raw offset ≢ fault
unfolding read_result
read_result-ne-fault raw offset = grind (
  arith,
  read_word16_fault raw offset,
  read_fault raw (offset + 2),
  read_word16_fault raw (offset + 3),
  λ (n : ℕ). read_registers_fault n raw (offset + 5),
)

map_result-ne-fault {ℓ κ} :
    {A : Type ℓ} {B : Type κ} (f : A → B) (r : Result A) → r ≢ fault → map_result f r ≢ fault
map_result-ne-fault f (ok a) h = λ p. cc
map_result-ne-fault f (err e) h = λ p. cc
map_result-ne-fault f fault h = λ p. h refl

read_results-ne-fault : (n : ℕ) (raw : List ℕ) (offset : ℕ) → read_results n raw offset ≢ fault
unfolding read_results
read_results-ne-fault zero raw offset = λ p. cc
read_results-ne-fault (suc n) raw offset =
    step (read_result raw offset) (read_result-ne-fault raw offset)
      (λ r. map_result-ne-fault (◌∷◌ r.0) _ (read_results-ne-fault n raw r.1))
  where
    step :
        (m : Result (ItemResult × ℕ)) {f : ItemResult × ℕ → Result BatchResponse}
        → m ≢ fault
        → ((r : ItemResult × ℕ) → f r ≢ fault)
        → (m >>= f) ≢ fault
    step (ok r) h k = k r
    step (err e) h k = λ p. cc
    step fault h k = λ p. h refl

-- On every input `deserialize` reads no byte outside of it.
pub response_deserialize-ne-fault : (raw : List ℕ) → deserialize raw ≢ fault
unfolding deserialize
response_deserialize-ne-fault raw =
    grind (arith, read_word16_fault raw 0, λ (n : ℕ). read_results-ne-fault n raw 2)

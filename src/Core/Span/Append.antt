-- ===== src/Core/Span/Append.antt =====
-- Reads and sub-views of a buffer that is known to begin with certain bytes.
use modbus_pp.Common.{
  ℕ, suc, ◌+◌, ◌≡◌, refl, sym, ap, ap₂, ◌∙◌, List, [], ◌∷◌, ◌++◌, append_assoc, arith, length,
  get_elem?, drop, All, length-append, take-append, IsWord16, hi_byte, lo_byte, word16_bytes,
  register_bytes,
}
use modbus_pp.Core.Result.{ok}
use modbus_pp.Core.Span.{read, subspan, read_word16, read_registers}

module _ {ℓ} {A : Type ℓ} where
  get_elem?-append :
      (pre xs : List A) (i : ℕ) → get_elem? (pre ++ xs) (length pre + i) ≡ get_elem? xs i
  get_elem?-append [] xs i = ap (get_elem? xs) (omega arith)
  get_elem?-append (x ∷ pre) xs i =
      let next : suc (length pre) + i ≡ suc (length pre + i) = omega arith in
      rw next (get_elem?-append pre xs i)

  drop-append_add : (pre xs : List A) (n : ℕ) → drop (length pre + n) (pre ++ xs) ≡ drop n xs
  drop-append_add [] xs n = ap (λ (k : ℕ). drop k xs) (omega arith)
  drop-append_add (x ∷ pre) xs n =
      let next : suc (length pre) + n ≡ suc (length pre + n) = omega arith in
      rw next (drop-append_add pre xs n)

  -- An offset into what follows a known front is an offset behind that front.
  pub read-append : (pre xs : List A) (i : ℕ) → read (pre ++ xs) (length pre + i) ≡ read xs i
  unfolding read
  read-append pre xs i = rw (get_elem?-append pre xs i)

  pub subspan-append :
      (pre xs : List A) (offset count : ℕ)
      → subspan (pre ++ xs) (length pre + offset) count ≡ subspan xs offset count
  unfolding subspan
  subspan-append pre xs offset count =
      rw (drop-append_add pre xs offset) (ground (arith, length-append pre xs))

  pub subspan_front : (xs ys : List A) → subspan (xs ++ ys) 0 (length xs) ≡ ok xs
  unfolding subspan
  subspan_front xs ys = rw (take-append xs ys) (ground (arith, length-append xs ys))

  pub subspan_middle :
      (pre xs ys : List A) → subspan (pre ++ (xs ++ ys)) (length pre) (length xs) ≡ ok xs
  subspan_middle pre xs ys =
      ap (λ (k : ℕ). subspan (pre ++ (xs ++ ys)) k (length xs)) (omega arith)
      ∙ subspan-append pre (xs ++ ys) 0 (length xs)
      ∙ subspan_front xs ys

pub read_word16-append :
    (pre xs : List ℕ) (i : ℕ) → read_word16 (pre ++ xs) (length pre + i) ≡ read_word16 xs i
unfolding read_word16
read_word16-append pre xs i =
    let next : length pre + i + 1 ≡ length pre + (i + 1) = omega arith in
    rw (next, read-append pre xs i, read-append pre xs (i + 1))

pub read_word16_here : (pre xs : List ℕ) → read_word16 (pre ++ xs) (length pre) ≡ read_word16 xs 0
read_word16_here pre xs = ap (read_word16 (pre ++ xs)) (omega arith) ∙ read_word16-append pre xs 0

pub read_word16_front :
    (w : ℕ) (xs : List ℕ) → IsWord16 w → read_word16 (hi_byte w ∷ lo_byte w ∷ xs) 0 ≡ ok w
unfolding read_word16 read
read_word16_front w xs h = ap ok (word16_bytes w h)

-- Registers that were written two bytes each are read back.
pub read_registers_written :
    (pre regs rest : List ℕ)
    → All IsWord16 regs
    → read_registers (length regs) (pre ++ (register_bytes regs ++ rest)) (length pre) ≡ ok regs
unfolding read_registers
read_registers_written pre [] rest h = refl
read_registers_written pre (reg ∷ regs) rest h =
    let two = hi_byte reg ∷ lo_byte reg ∷ [] in
    let first : read_word16 (pre ++ (register_bytes (reg ∷ regs) ++ rest)) (length pre) ≡ ok reg =
      read_word16_here pre (register_bytes (reg ∷ regs) ++ rest)
      ∙ read_word16_front reg (register_bytes regs ++ rest) h.0 in
    let others : read_registers (length regs) (pre ++ (register_bytes (reg ∷ regs) ++ rest))
          (length pre + 2)
        ≡ ok regs =
      ap₂ (read_registers (length regs)) (sym (append_assoc pre two (register_bytes regs ++ rest)))
        (omega (arith, length-append pre two))
      ∙ read_registers_written (pre ++ two) regs rest h.1 in
    rw (first, others)

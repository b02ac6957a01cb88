-- ===== src/Core/Span/Bounds.antt =====
-- Reads and sub-views inside of the buffer do not fault.
use modbus_pp.Common.{
  ℕ, zero, suc, ◌+◌, ◌≤◌, ◌<◌, ◌≡◌, refl, some, List, [], ◌∷◌, arith, length, get_elem?, IsWord16,
  word16, word16-IsWord16,
}
use modbus_pp.Core.Result.{ok, fault}
use modbus_pp.Core.Span.{read, subspan, read_word16}

module _ {ℓ} {A : Type ℓ} where
  get_elem?-inside : (xs : List A) (i : ℕ) → i < length xs → (a : A) × (get_elem? xs i ≡ some a)
  get_elem?-inside [] i h = absurd (omega arith)
  get_elem?-inside (x ∷ xs) zero h = (x, refl)
  get_elem?-inside (x ∷ xs) (suc i) h = get_elem?-inside xs i (omega arith)

  pub read_inside : (xs : List A) (i : ℕ) → i < length xs → (a : A) × (read xs i ≡ ok a)
  unfolding read
  read_inside xs i h = let (a, e) = get_elem?-inside xs i h in (a, rw e)

pub read_word16_inside :
    (xs : List ℕ) (i : ℕ) → i + 1 < length xs → (w : ℕ) × (read_word16 xs i ≡ ok w)
unfolding read_word16
read_word16_inside xs i h =
    let (hi, p) = read_inside xs i (omega arith) in
    let (lo, q) = read_inside xs (i + 1) h in (word16 hi lo, rw (p, q))

module _ {ℓ} {A : Type ℓ} where
  pub read_fault : (xs : List A) (i : ℕ) → read xs i ≡ fault → length xs ≤ i
  unfolding read
  read_fault [] i h = omega arith
  read_fault (x ∷ xs) zero h = cc
  read_fault (x ∷ xs) (suc i) h = omega (arith, read_fault xs i h)

  pub subspan_fault :
      (xs : List A) (offset count : ℕ)
      → subspan xs offset count ≡ fault
      → length xs < offset + count
  unfolding subspan
  subspan_fault xs offset count h = ground arith

pub read_word16-IsWord16 : (xs : List ℕ) (i w : ℕ) → read_word16 xs i ≡ ok w → IsWord16 w
unfolding read_word16
read_word16-IsWord16 xs i w h = grind (arith, word16-IsWord16)

pub read_word16_fault : (xs : List ℕ) (i : ℕ) → read_word16 xs i ≡ fault → length xs ≤ i + 1
unfolding read_word16
read_word16_fault xs i h = ground (arith, read_fault xs i, read_fault xs (i + 1))

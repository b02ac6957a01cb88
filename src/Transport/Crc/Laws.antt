-- ===== src/Transport/Crc/Laws.antt =====
-- Ranges and the residue of the checksum.
use native.Mathlib.Nat.{pow-suc}
use modbus_pp.Common.{
  ℕ, zero, suc, ◌+◌, ◌*◌, ◌/◌, ◌%◌, ◌^◌, ◌<◌, bit_xor, ◌≡◌, refl, ap, ap₂, ◌∙◌, List, [], ◌∷◌, ◌++◌,
  arith, bit_and-one, bit_xor-lt, zero-bit_xor, bit_xor_cancel_left, bit_xor_comm, bit_xor_fields,
  IsByte, IsWord16, AreBytes, hi_byte, lo_byte,
}
use modbus_pp.Transport.Crc.{crc_bit, crc_bits, crc_byte, crc_loop, crc16}

pub crc_bit-IsWord16 : (crc : ℕ) → IsWord16 crc → IsWord16 (crc_bit crc)
unfolding crc_bit
crc_bit-IsWord16 crc h = ground (arith, bit_xor-lt 16 (crc / 2) 0xA001 (omega arith) (omega arith))

crc_bits-IsWord16 : (n crc : ℕ) → IsWord16 crc → IsWord16 (crc_bits n crc)
unfolding crc_bits
crc_bits-IsWord16 zero crc h = h
crc_bits-IsWord16 (suc n) crc h = crc_bits-IsWord16 n (crc_bit crc) (crc_bit-IsWord16 crc h)

pub crc_byte-IsWord16 : (crc b : ℕ) → IsWord16 crc → IsByte b → IsWord16 (crc_byte crc b)
unfolding crc_byte
crc_byte-IsWord16 crc b h k =
    crc_bits-IsWord16 8 (bit_xor crc b) (bit_xor-lt 16 crc b h (omega arith))

pub crc_loop-IsWord16 :
    (crc : ℕ) (bytes : List ℕ) → IsWord16 crc → AreBytes bytes → IsWord16 (crc_loop crc bytes)
unfolding crc_loop
crc_loop-IsWord16 crc [] h k = h
crc_loop-IsWord16 crc (b ∷ bytes) h k =
    crc_loop-IsWord16 (crc_byte crc b) bytes (crc_byte-IsWord16 crc b h k.0) k.1

pub crc16-IsWord16 : (bytes : List ℕ) → AreBytes bytes → IsWord16 (crc16 bytes)
unfolding crc16
crc16-IsWord16 bytes h = crc_loop-IsWord16 0xFFFF bytes (omega arith) h

pub crc_loop-append :
    (crc : ℕ) (xs ys : List ℕ) → crc_loop crc (xs ++ ys) ≡ crc_loop (crc_loop crc xs) ys
unfolding crc_loop
crc_loop-append crc [] ys = refl
crc_loop-append crc (x ∷ xs) ys = crc_loop-append (crc_byte crc x) xs ys

-- A word whose low bits are clear is shifted out by as many rounds.
crc_bits_clear : (n crc : ℕ) → crc_bits n (crc * 2 ^ n) ≡ crc
unfolding crc_bits
crc_bits_clear zero crc = omega arith
crc_bits_clear (suc n) crc = rw (even_step n crc) (crc_bits_clear n crc)
  where
    even_step : (n crc : ℕ) → crc_bit (crc * 2 ^ suc n) ≡ crc * 2 ^ n
    even_step n crc =
        unfold crc_bit in
        ground (arith, ap (λ (t : ℕ). crc * t) (pow-suc 2 n), bit_and-one (crc * 2 ^ suc n))

xor_zero : (a : ℕ) → a < 2 ^ 16 → bit_xor a 0 ≡ a
xor_zero a h = omega (arith, bit_xor_comm 16 a 0 h (omega arith), zero-bit_xor a)

xor_self : (a : ℕ) → a < 2 ^ 16 → bit_xor a a ≡ 0
xor_self a h = rw (xor_zero a h) at (bit_xor_cancel_left 16 a 0 h (omega arith))

low_byte_out : (crc : ℕ) → IsWord16 crc → crc_byte crc (lo_byte crc) ≡ hi_byte crc
unfolding crc_byte
low_byte_out crc h = ap (crc_bits 8) (cleared crc h) ∙ crc_bits_clear 8 (hi_byte crc)
  where
    cleared : (crc : ℕ) → IsWord16 crc → bit_xor crc (lo_byte crc) ≡ hi_byte crc * 2 ^ 8
    cleared crc h = omega (
      arith,
      bit_xor_fields 8 (crc / 2 ^ 8) 0 (crc % 2 ^ 8) (crc % 2 ^ 8) (omega arith) (omega arith),
      ap₂ bit_xor {x = crc / 2 ^ 8 * 2 ^ 8 + crc % 2 ^ 8} {y = crc} {u = 0 * 2 ^ 8 + crc % 2 ^ 8}
          {v = crc % 2 ^ 8} (omega arith) (omega arith),
      xor_zero (crc / 2 ^ 8) (omega arith),
      xor_self (crc % 2 ^ 8) (omega arith),
    )

high_byte_out : (b : ℕ) → IsByte b → crc_byte b b ≡ 0
unfolding crc_byte
high_byte_out b h = ap (crc_bits 8) (xor_self b (omega arith)) ∙ crc_bits_clear 8 0

-- Bytes followed by their own checksum, low byte first, have the checksum 0.
pub crc16_residue :
    (bytes : List ℕ)
    → AreBytes bytes
    → crc16 (bytes ++ (lo_byte (crc16 bytes) ∷ hi_byte (crc16 bytes) ∷ [])) ≡ 0
unfolding crc16
crc16_residue bytes h =
    crc_loop-append 0xFFFF bytes _
    ∙ last_two (crc_loop 0xFFFF bytes) (crc_loop-IsWord16 0xFFFF bytes (omega arith) h)
  where
    last_two : (crc : ℕ) → IsWord16 crc → crc_loop crc (lo_byte crc ∷ hi_byte crc ∷ []) ≡ 0
    last_two crc h =
        unfold crc_loop in rw (low_byte_out crc h) (high_byte_out (hi_byte crc) (omega arith))

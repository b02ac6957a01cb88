-- ===== src/Transport/Crc/Detection.antt =====
-- The checksum of a text determines each of its bytes, given the others.
use modbus_pp.Common.{
  ℕ, zero, suc, ◌+◌, ◌*◌, ◌/◌, ◌^◌, ◌≤◌, ◌<◌, bit_xor, ◌≡◌, sym, ap, ◌∙◌, ◌≢◌, List, [], ◌∷◌, ◌++◌,
  arith, ltb, if◌then◌else◌, All-front, All-back, bit_and-one, bit_xor-lt, zero-bit_xor,
  bit_xor_cancel_left, bit_xor_comm, bit_xor_fields, IsByte, IsWord16, AreBytes,
}
use modbus_pp.Transport.Crc.{crc_bit, crc_bits, crc_byte, crc_loop, crc16}
use modbus_pp.Transport.Crc.Laws.{
  crc_bit-IsWord16, crc_byte-IsWord16, crc_loop-IsWord16, crc_loop-append,
}

-- The polynomial's top bit stays where it is, and tells which branch a round took.
top_bit : (x : ℕ) → x < 2 ^ 15 → 2 ^ 15 ≤ bit_xor x 0xA001
top_bit x h = omega (
  arith,
  bit_xor_fields 15 0 1 x 0x2001 h (omega arith),
  ap (λ (t : ℕ). bit_xor t 0xA001) {x = 0 * 2 ^ 15 + x} {y = x} (omega arith),
  zero-bit_xor 1,
)

-- A round is undone.
abbrev undo_bit : ℕ → ℕ
undo_bit crc = if ltb crc (2 ^ 15) then crc * 2 else bit_xor 0xA001 crc * 2 + 1

undo_bit-crc_bit : (crc : ℕ) → IsWord16 crc → undo_bit (crc_bit crc) ≡ crc
unfolding crc_bit
undo_bit-crc_bit crc h = ground (
  arith,
  bit_and-one crc,
  top_bit (crc / 2) (omega arith),
  bit_xor_comm 16 (crc / 2) 0xA001 (omega arith) (omega arith),
  bit_xor_cancel_left 16 0xA001 (crc / 2) (omega arith) (omega arith),
)

crc_bits-injective : (n c d : ℕ) → IsWord16 c → IsWord16 d → crc_bits n c ≡ crc_bits n d → c ≡ d
unfolding crc_bits
crc_bits-injective zero c d h k e = e
crc_bits-injective (suc n) c d h k e =
    let same =
      crc_bits-injective n (crc_bit c) (crc_bit d) (crc_bit-IsWord16 c h) (crc_bit-IsWord16 d k)
        e in
    sym (undo_bit-crc_bit c h) ∙ ap undo_bit same ∙ undo_bit-crc_bit d k

-- A byte step is injective in the checksum so far, and in the byte.
xor_right-injective :
    (a b c : ℕ) → IsWord16 a → IsWord16 b → IsWord16 c → bit_xor a b ≡ bit_xor a c → b ≡ c
xor_right-injective a b c h k l e =
    sym (bit_xor_cancel_left 16 a b h k) ∙ ap (bit_xor a) e ∙ bit_xor_cancel_left 16 a c h l

crc_byte_byte-injective :
    (c x y : ℕ) → IsWord16 c → IsByte x → IsByte y → crc_byte c x ≡ crc_byte c y → x ≡ y
unfolding crc_byte
crc_byte_byte-injective c x y h k l e = xor_right-injective c x y h (omega arith) (omega arith) (
    crc_bits-injective 8 _ _ (bit_xor-lt 16 c x h (omega arith)) (bit_xor-lt 16 c y h (omega arith))
      e)

crc_byte_crc-injective :
    (c d x : ℕ) → IsWord16 c → IsWord16 d → IsByte x → crc_byte c x ≡ crc_byte d x → c ≡ d
unfolding crc_byte
crc_byte_crc-injective c d x h k l e = xor_right-injective x c d (omega arith) h k (
    bit_xor_comm 16 x c (omega arith) h
    ∙ crc_bits-injective 8 _ _ (bit_xor-lt 16 c x h (omega arith))
        (bit_xor-lt 16 d x k (omega arith)) e
    ∙ bit_xor_comm 16 d x k (omega arith))

crc_loop-injective :
    (c d : ℕ) (bytes : List ℕ)
    → IsWord16 c
    → IsWord16 d
    → AreBytes bytes
    → crc_loop c bytes ≡ crc_loop d bytes
    → c ≡ d
unfolding crc_loop
crc_loop-injective c d [] h k l e = e
crc_loop-injective c d (x ∷ bytes) h k l e = crc_byte_crc-injective c d x h k l.0 (
    crc_loop-injective (crc_byte c x) (crc_byte d x) bytes (crc_byte-IsWord16 c x h l.0)
      (crc_byte-IsWord16 d x k l.0) l.1 e)

-- Two texts of bytes that differ in exactly one place have different checksums.
pub crc16_one_byte :
    (front : List ℕ) (x y : ℕ) (back : List ℕ)
    → AreBytes (front ++ x ∷ back)
    → IsByte y
    → x ≢ y
    → crc16 (front ++ x ∷ back) ≢ crc16 (front ++ y ∷ back)
unfolding crc16
crc16_one_byte front x y back h k differ e =
    let c = crc_loop 0xFFFF front in
    let fits : IsWord16 c =
      crc_loop-IsWord16 0xFFFF front (omega arith) (All-front IsByte front (x ∷ back) h) in
    let tail : AreBytes (x ∷ back) = All-back IsByte front (x ∷ back) h in
    differ (
      crc_byte_byte-injective c x y fits tail.0 k (
        crc_loop-injective _ _ back (crc_byte-IsWord16 c x fits tail.0)
          (crc_byte-IsWord16 c y fits k) tail.1
          (unfold crc_loop in
            sym (crc_loop-append 0xFFFF front (x ∷ back))
            ∙ e
            ∙ crc_loop-append 0xFFFF front (y ∷ back))))

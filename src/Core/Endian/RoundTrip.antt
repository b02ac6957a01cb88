-- ===== src/Core/Endian/RoundTrip.antt =====
-- Every encode function of endian.hpp is undone by the decode function of the same byte order.
use modbus_pp.Common.{
  ℕ, ◌^◌, ◌<◌, ◌≡◌, ap, ◌∙◌, arith, word16_bytes, hi_byte-word16, lo_byte-word16,
}
use modbus_pp.Common.Int.{ℤ, FitsHalf, to_unsigned, of_unsigned-to_unsigned, to_unsigned-lt}
use modbus_pp.Core.Endian.{
  ByteOrder, Bytes4, Bytes8, reorder4, reorder8, to_big_endian_bytes4, to_big_endian_bytes8,
  from_big_endian_bytes4, from_big_endian_bytes8, encode_uint32, decode_uint32, encode_int32,
  decode_int32, encode_uint16, decode_uint16, encode_int16, decode_int16, registers_of_bytes,
  bytes_of_registers, encode_uint32_regs, decode_uint32_regs, registers_of_bytes8,
  bytes_of_registers8, FloatBits, encode_float, decode_float, encode_float_regs, decode_float_regs,
  encode_double, decode_double, encode_double_regs, decode_double_regs, abcd, dcba, badc, cdab,
}
use modbus_pp.Core.Endian.Bytes.{
  reorder4-reorder4, reorder8-reorder8, Are4Bytes, from-to_big_endian4, from-to_big_endian8,
}

-- A 32-bit value is restored from its four bytes, in each byte order.
decode_uint32-encode_uint32 :
    (o : ByteOrder) (v : ℕ) → v < 2 ^ 32 → decode_uint32 o (encode_uint32 o v) ≡ v
unfolding decode_uint32 encode_uint32
decode_uint32-encode_uint32 o v h = rw (reorder4-reorder4 o _) (from-to_big_endian4 v h)

-- A signed 32-bit value is restored from its four bytes, in each byte order.
pub decode_int32-encode_int32 :
    (o : ByteOrder) (z : ℤ) → FitsHalf (2 ^ 31) z → decode_int32 o (encode_int32 o z) ≡ z
unfolding decode_int32 encode_int32
decode_int32-encode_int32 o z h =
    rw (decode_uint32-encode_uint32 o (to_unsigned (2 ^ 31) z) (to_unsigned-lt (2 ^ 31) z h))
      (of_unsigned-to_unsigned (2 ^ 31) z h)

-- A signed 16-bit value is restored from its two bytes.
pub decode_int16-encode_int16 : (z : ℤ) → FitsHalf (2 ^ 15) z → decode_int16 (encode_int16 z) ≡ z
unfolding decode_int16 encode_int16 decode_uint16 encode_uint16
decode_int16-encode_int16 z h =
    rw (word16_bytes (to_unsigned (2 ^ 15) z) (to_unsigned-lt (2 ^ 15) z h))
      (of_unsigned-to_unsigned (2 ^ 15) z h)

reorder4-Are4Bytes :
    (o : ByteOrder) (bytes : Bytes4) → Are4Bytes bytes → Are4Bytes (reorder4 o bytes)
unfolding reorder4
reorder4-Are4Bytes abcd (a, b, c, d) h = h
reorder4-Are4Bytes dcba (a, b, c, d) h = (h.3, h.2, h.1, h.0)
reorder4-Are4Bytes badc (a, b, c, d) h = (h.1, h.0, h.3, h.2)
reorder4-Are4Bytes cdab (a, b, c, d) h = (h.2, h.3, h.0, h.1)

bytes_through_registers :
    (bytes : Bytes4) → Are4Bytes bytes → bytes_of_registers (registers_of_bytes bytes) ≡ bytes
unfolding encode_uint16 decode_uint16
bytes_through_registers (a, b, c, d) h = rw (
  hi_byte-word16 a b h.0 h.1,
  lo_byte-word16 a b h.0 h.1,
  hi_byte-word16 c d h.2 h.3,
  lo_byte-word16 c d h.2 h.3,
)

to_big_endian4-Are4Bytes : (v : ℕ) → Are4Bytes (to_big_endian_bytes4 v)
unfolding to_big_endian_bytes4
to_big_endian4-Are4Bytes v = (omega arith, omega arith, omega arith, omega arith)

-- A 32-bit value is restored from its two registers, in each byte order.
pub decode_uint32_regs-encode_uint32_regs :
    (o : ByteOrder) (v : ℕ) → v < 2 ^ 32 → decode_uint32_regs o (encode_uint32_regs o v) ≡ v
unfolding decode_uint32_regs encode_uint32_regs encode_uint32
decode_uint32_regs-encode_uint32_regs o v h =
    ap (decode_uint32 o) (
      bytes_through_registers (reorder4 o (to_big_endian_bytes4 v))
        (reorder4-Are4Bytes o (to_big_endian_bytes4 v) (to_big_endian4-Are4Bytes v)))
    ∙ decode_uint32-encode_uint32 o v h

module _ (float : FloatBits 32) where
  -- A `float` is restored from its two registers, in each byte order.
  pub decode_float_regs-encode_float_regs :
      (o : ByteOrder) (x : float.Float)
      → decode_float_regs float o (encode_float_regs float o x) ≡ x
  unfolding decode_float_regs encode_float_regs decode_float encode_float
  decode_float_regs-encode_float_regs o x =
      let bits = float.to_bits x in
      ap (λ bytes. float.of_bits (from_big_endian_bytes4 (reorder4 o bytes)))
        (bytes_through_registers (reorder4 o (to_big_endian_bytes4 bits))
          (reorder4-Are4Bytes o (to_big_endian_bytes4 bits) (to_big_endian4-Are4Bytes bits)))
      ∙ ap (λ bytes. float.of_bits (from_big_endian_bytes4 bytes)) (reorder4-reorder4 o _)
      ∙ ap float.of_bits (from-to_big_endian4 bits (float.to_bits-lt x))
      ∙ float.of_bits-to_bits x

abbrev Are8Bytes : Bytes8 → Type 0
Are8Bytes (a, b, c, d, e, f, g, h) = Are4Bytes (a, b, c, d) × Are4Bytes (e, f, g, h)

reorder8-Are8Bytes :
    (o : ByteOrder) (bytes : Bytes8) → Are8Bytes bytes → Are8Bytes (reorder8 o bytes)
unfolding reorder8
reorder8-Are8Bytes abcd bytes k = k
reorder8-Are8Bytes dcba bytes (k, l) = ((l.3, l.2, l.1, l.0), (k.3, k.2, k.1, k.0))
reorder8-Are8Bytes badc bytes (k, l) = ((k.1, k.0, k.3, k.2), (l.1, l.0, l.3, l.2))
reorder8-Are8Bytes cdab bytes (k, l) = ((l.2, l.3, l.0, l.1), (k.2, k.3, k.0, k.1))

bytes8_through_registers :
    (bytes : Bytes8) → Are8Bytes bytes → bytes_of_registers8 (registers_of_bytes8 bytes) ≡ bytes
unfolding encode_uint16 decode_uint16
bytes8_through_registers (a, b, c, d, e, f, g, h) (k, l) = rw (
  hi_byte-word16 a b k.0 k.1,
  lo_byte-word16 a b k.0 k.1,
  hi_byte-word16 c d k.2 k.3,
  lo_byte-word16 c d k.2 k.3,
  hi_byte-word16 e f l.0 l.1,
  lo_byte-word16 e f l.0 l.1,
  hi_byte-word16 g h l.2 l.3,
  lo_byte-word16 g h l.2 l.3,
)

to_big_endian8-Are8Bytes : (v : ℕ) → Are8Bytes (to_big_endian_bytes8 v)
unfolding to_big_endian_bytes8
to_big_endian8-Are8Bytes v = (
  (omega arith, omega arith, omega arith, omega arith),
  (omega arith, omega arith, omega arith, omega arith),
)

module _ (double : FloatBits 64) where
  -- A `double` is restored from its four registers, in each byte order.
  pub decode_double_regs-encode_double_regs :
      (o : ByteOrder) (x : double.Float)
      → decode_double_regs double o (encode_double_regs double o x) ≡ x
  unfolding decode_double_regs encode_double_regs decode_double encode_double
  decode_double_regs-encode_double_regs o x =
      let bits = double.to_bits x in
      ap (λ bytes. double.of_bits (from_big_endian_bytes8 (reorder8 o bytes)))
        (bytes8_through_registers (reorder8 o (to_big_endian_bytes8 bits))
          (reorder8-Are8Bytes o (to_big_endian_bytes8 bits) (to_big_endian8-Are8Bytes bits)))
      ∙ ap (λ bytes. double.of_bits (from_big_endian_bytes8 bytes)) (reorder8-reorder8 o _)
      ∙ ap double.of_bits (from-to_big_endian8 bits (double.to_bits-lt x))
      ∙ double.of_bits-to_bits x

-- ===== src/Core/Endian.antt =====
-- include/modbus_pp/core/endian.hpp: values of 16, 32 and 64 bits as bytes and as registers. The
-- arrays of 2, 4 and 8 bytes and of 2 and 4 registers are tuples, so the loops over them are
-- written out.
pub mod Bytes
pub mod RoundTrip
mod Tests
use modbus_pp.Common.{ℕ, ◌-◌, ◌*◌, ◌/◌, ◌%◌, ◌^◌, ◌<◌, bit_or, ◌≡◌, hi_byte, lo_byte, word16}
use modbus_pp.Common.Int.{ℤ, to_unsigned, of_unsigned}

pub data ByteOrder : Type 0 where
  abcd dcba badc cdab : ByteOrder

abbrev pub Bytes4 : Type 0
Bytes4 = ℕ × ℕ × ℕ × ℕ

abbrev pub Bytes8 : Type 0
Bytes8 = ℕ × ℕ × ℕ × ℕ × ℕ × ℕ × ℕ × ℕ

pub reorder4 : ByteOrder → Bytes4 → Bytes4
reorder4 abcd (a, b, c, d) = (a, b, c, d)
reorder4 dcba (a, b, c, d) = (d, c, b, a)
reorder4 badc (a, b, c, d) = (b, a, d, c)
reorder4 cdab (a, b, c, d) = (c, d, a, b)

pub reorder8 : ByteOrder → Bytes8 → Bytes8
reorder8 abcd (a, b, c, d, e, f, g, h) = (a, b, c, d, e, f, g, h)
reorder8 dcba (a, b, c, d, e, f, g, h) = (h, g, f, e, d, c, b, a)
reorder8 badc (a, b, c, d, e, f, g, h) = (b, a, d, c, f, e, h, g)
reorder8 cdab (a, b, c, d, e, f, g, h) = (g, h, e, f, c, d, a, b)

-- `(value >> ((sizeof(T) - 1 - i) * 8)) & 0xFF`
abbrev pub nth_byte : ℕ → ℕ → ℕ → ℕ
nth_byte size i value = value / 2 ^ ((size - 1 - i) * 8) % 2 ^ 8

pub to_big_endian_bytes4 : ℕ → Bytes4
to_big_endian_bytes4 v = (nth_byte 4 0 v, nth_byte 4 1 v, nth_byte 4 2 v, nth_byte 4 3 v)

pub to_big_endian_bytes8 : ℕ → Bytes8
to_big_endian_bytes8 v = (
  nth_byte 8 0 v,
  nth_byte 8 1 v,
  nth_byte 8 2 v,
  nth_byte 8 3 v,
  nth_byte 8 4 v,
  nth_byte 8 5 v,
  nth_byte 8 6 v,
  nth_byte 8 7 v,
)

-- `value | (static_cast<T>(data[i]) << ((sizeof(T) - 1 - i) * 8))`
abbrev pub or_byte : ℕ → ℕ → ℕ → ℕ → ℕ
or_byte size i value b = bit_or value (b * 2 ^ ((size - 1 - i) * 8)) % 2 ^ (size * 8)

pub from_big_endian_bytes4 : Bytes4 → ℕ
from_big_endian_bytes4 (a, b, c, d) =
    or_byte 4 3 (or_byte 4 2 (or_byte 4 1 (or_byte 4 0 0 a) b) c) d

pub from_big_endian_bytes8 : Bytes8 → ℕ
from_big_endian_bytes8 (a, b, c, d, e, f, g, h) =
    or_byte 8 7
      (or_byte 8 6
        (or_byte 8 5
          (or_byte 8 4 (or_byte 8 3 (or_byte 8 2 (or_byte 8 1 (or_byte 8 0 0 a) b) c) d) e) f)
        g)
      h

pub encode_uint32 : ByteOrder → ℕ → Bytes4
encode_uint32 order value = reorder4 order (to_big_endian_bytes4 value)

pub decode_uint32 : ByteOrder → Bytes4 → ℕ
decode_uint32 order bytes = from_big_endian_bytes4 (reorder4 order bytes)

pub encode_int32 : ByteOrder → ℤ → Bytes4
encode_int32 order value = encode_uint32 order (to_unsigned (2 ^ 31) value)

pub decode_int32 : ByteOrder → Bytes4 → ℤ
decode_int32 order bytes = of_unsigned (2 ^ 31) (decode_uint32 order bytes)

pub encode_uint16 : ℕ → ℕ × ℕ
encode_uint16 value = (hi_byte value, lo_byte value)

pub decode_uint16 : ℕ × ℕ → ℕ
decode_uint16 (hi, lo) = word16 hi lo

pub encode_int16 : ℤ → ℕ × ℕ
encode_int16 value = encode_uint16 (to_unsigned (2 ^ 15) value)

pub decode_int16 : ℕ × ℕ → ℤ
decode_int16 bytes = of_unsigned (2 ^ 15) (decode_uint16 bytes)

-- The four bytes of two registers, and the two registers of four bytes.
abbrev pub registers_of_bytes : Bytes4 → ℕ × ℕ
registers_of_bytes (a, b, c, d) = (decode_uint16 (a, b), decode_uint16 (c, d))

abbrev pub bytes_of_registers : ℕ × ℕ → Bytes4
bytes_of_registers (hi, lo) =
    ((encode_uint16 hi).0, (encode_uint16 hi).1, (encode_uint16 lo).0, (encode_uint16 lo).1)

pub encode_uint32_regs : ByteOrder → ℕ → ℕ × ℕ
encode_uint32_regs order value = registers_of_bytes (encode_uint32 order value)

pub decode_uint32_regs : ByteOrder → ℕ × ℕ → ℕ
decode_uint32_regs order regs = decode_uint32 order (bytes_of_registers regs)

abbrev Registers4 : Type 0
Registers4 = ℕ × ℕ × ℕ × ℕ

abbrev pub registers_of_bytes8 : Bytes8 → Registers4
registers_of_bytes8 (a, b, c, d, e, f, g, h) =
    (decode_uint16 (a, b), decode_uint16 (c, d), decode_uint16 (e, f), decode_uint16 (g, h))

abbrev pub bytes_of_registers8 : Registers4 → Bytes8
bytes_of_registers8 (p, q, r, s) = (
  (encode_uint16 p).0,
  (encode_uint16 p).1,
  (encode_uint16 q).0,
  (encode_uint16 q).1,
  (encode_uint16 r).0,
  (encode_uint16 r).1,
  (encode_uint16 s).0,
  (encode_uint16 s).1,
)

-- What `memcpy` between a floating-point type and an unsigned type of its width does: each value
-- has its bits, and the bits give the value back.
pub record FloatBits (width : ℕ) : Type 1 where
  pub Float : Type 0
  pub to_bits : Float → ℕ
  pub of_bits : ℕ → Float
  pub to_bits-lt : (x : Float) → to_bits x < 2 ^ width
  pub of_bits-to_bits : (x : Float) → of_bits (to_bits x) ≡ x

module _ (float : FloatBits 32) where
  pub encode_float : ByteOrder → float.Float → Bytes4
  encode_float order value = reorder4 order (to_big_endian_bytes4 (float.to_bits value))

  pub decode_float : ByteOrder → Bytes4 → float.Float
  decode_float order bytes = float.of_bits (from_big_endian_bytes4 (reorder4 order bytes))

  pub encode_float_regs : ByteOrder → float.Float → ℕ × ℕ
  encode_float_regs order value = registers_of_bytes (encode_float order value)

  pub decode_float_regs : ByteOrder → ℕ × ℕ → float.Float
  decode_float_regs order regs = decode_float order (bytes_of_registers regs)

module _ (double : FloatBits 64) where
  pub encode_double : ByteOrder → double.Float → Bytes8
  encode_double order value = reorder8 order (to_big_endian_bytes8 (double.to_bits value))

  pub decode_double : ByteOrder → Bytes8 → double.Float
  decode_double order bytes = double.of_bits (from_big_endian_bytes8 (reorder8 order bytes))

  pub encode_double_regs : ByteOrder → double.Float → Registers4
  encode_double_regs order value = registers_of_bytes8 (encode_double order value)

  pub decode_double_regs : ByteOrder → Registers4 → double.Float
  decode_double_regs order regs = decode_double order (bytes_of_registers8 regs)

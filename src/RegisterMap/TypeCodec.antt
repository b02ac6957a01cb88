-- ===== src/RegisterMap/TypeCodec.antt =====
-- include/modbus_pp/register_map/type_codec.hpp. Its numbers are those of endian.hpp, in registers.
-- A character is its byte. Whether `char` is signed is the choice of the compiler, and a parameter.
pub mod Text
mod Tests
use modbus_pp.Common.Int.{ℤ, to_unsigned, of_unsigned}
use modbus_pp.Core.Endian.{
  ByteOrder, encode_uint32_regs, decode_uint32_regs, FloatBits, encode_float_regs,
  decode_float_regs, encode_double_regs, decode_double_regs,
}
use modbus_pp.Common.{
  ℕ, zero, suc, ◌+◌, ◌*◌, ◌/◌, ◌%◌, ◌^◌, bit_or, Bool, List, [], ◌∷◌, leb, ◌==◌, if◌then◌else◌,
}

module _ (float : FloatBits 32) where
  abbrev pub encode_float : ByteOrder → float.Float → ℕ × ℕ
  encode_float order value = encode_float_regs float order value

  abbrev pub decode_float : ByteOrder → ℕ × ℕ → float.Float
  decode_float order regs = decode_float_regs float order regs

module _ (double : FloatBits 64) where
  abbrev pub encode_double : ByteOrder → double.Float → ℕ × ℕ × ℕ × ℕ
  encode_double order value = encode_double_regs double order value

  abbrev pub decode_double : ByteOrder → ℕ × ℕ × ℕ × ℕ → double.Float
  decode_double order regs = decode_double_regs double order regs

abbrev pub encode_uint32 : ByteOrder → ℕ → ℕ × ℕ
encode_uint32 order value = encode_uint32_regs order value

abbrev pub decode_uint32 : ByteOrder → ℕ × ℕ → ℕ
decode_uint32 order regs = decode_uint32_regs order regs

-- `memcpy` between the signed and the unsigned type.
abbrev pub encode_int32 : ByteOrder → ℤ → ℕ × ℕ
encode_int32 order value = encode_uint32_regs order (to_unsigned (2 ^ 31) value)

abbrev pub decode_int32 : ByteOrder → ℕ × ℕ → ℤ
decode_int32 order regs = of_unsigned (2 ^ 31) (decode_uint32_regs order regs)

-- `static_cast<std::uint16_t>(str[i])`: a signed character is extended by its sign.
pub widen : Bool → ℕ → ℕ
widen char_signed b = if char_signed then (if leb 0x80 b then 0xFF00 + b else b) else b

-- The loop over `str`, two characters per register; the registers behind its end stay 0.
unfoldable pub encode_string : Bool → List ℕ → ℕ → List ℕ
encode_string char_signed str zero = []
encode_string char_signed [] (suc max_registers) = 0 ∷ encode_string char_signed [] max_registers
encode_string char_signed (a ∷ []) (suc max_registers) =
    widen char_signed a * 2 ^ 8 % 2 ^ 16 ∷ encode_string char_signed [] max_registers
encode_string char_signed (a ∷ b ∷ str) (suc max_registers) =
    bit_or (widen char_signed a * 2 ^ 8 % 2 ^ 16) (widen char_signed b)
    ∷ encode_string char_signed str max_registers

-- What one register adds, and whether the loop goes on with `rest`.
pub decode_pair : ℕ → ℕ → List ℕ → List ℕ
decode_pair hi lo rest = if hi == 0 then [] else if lo == 0 then hi ∷ [] else hi ∷ lo ∷ rest

pub decode_string : List ℕ → List ℕ
decode_string [] = []
decode_string (reg ∷ regs) = decode_pair (reg / 2 ^ 8 % 2 ^ 8) (reg % 2 ^ 8) (decode_string regs)

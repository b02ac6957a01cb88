-- ===== src/Core/Endian/Tests.antt =====
-- Runs of the byte orders, and the theorems at concrete inputs.
use modbus_pp.Common.{◌≡◌, refl, Bool, true, not, arith, ◌==◌, if◌then◌else◌}
use modbus_pp.Common.Int.{negsuc}
use modbus_pp.Core.Endian.{
  reorder4, reorder8, to_big_endian_bytes4, encode_uint32, encode_int32, decode_int32, encode_int16,
  decode_int16, encode_uint32_regs, decode_uint32_regs, FloatBits, encode_float_regs,
  decode_float_regs, encode_double_regs, decode_double_regs, badc, cdab,
}
use modbus_pp.Core.Endian.Bytes.{reorder8-reorder8}
use modbus_pp.Core.Endian.RoundTrip.{
  decode_int32-encode_int32, decode_int16-encode_int16, decode_uint32_regs-encode_uint32_regs,
  decode_float_regs-encode_float_regs, decode_double_regs-encode_double_regs,
}

swapped_words : encode_uint32 cdab 0x01020304 ≡ (3, 4, 1, 2)
unfolding encode_uint32 reorder4 to_big_endian_bytes4
swapped_words = refl

abbrev small_float : FloatBits 32
small_float = record {
  Float = Unit {0};
  to_bits = λ x. 0x3F800000;
  of_bits = λ b. tt;
  to_bits-lt = λ x. omega arith;
  of_bits-to_bits = λ x. refl;
}

abbrev small_double : FloatBits 64
small_double = record {
  Float = Bool;
  to_bits = λ x. if x then 0x3FF0000000000000 else 0;
  of_bits = λ b. not (b == 0);
  to_bits-lt = λ x. ground arith;
  of_bits-to_bits = λ x. ground arith;
}

reorder8-reorder8_example :
    reorder8 cdab (reorder8 cdab (1, 2, 3, 4, 5, 6, 7, 8)) ≡ (1, 2, 3, 4, 5, 6, 7, 8)
reorder8-reorder8_example = reorder8-reorder8 cdab (1, 2, 3, 4, 5, 6, 7, 8)

decode_int32-encode_int32_run : decode_int32 badc (encode_int32 badc (negsuc 41)) ≡ negsuc 41
decode_int32-encode_int32_run = decode_int32-encode_int32 badc (negsuc 41) (omega arith)

decode_int16-encode_int16_example : decode_int16 (encode_int16 (negsuc 4)) ≡ negsuc 4
decode_int16-encode_int16_example = decode_int16-encode_int16 (negsuc 4) (omega arith)

decode_uint32_regs-encode_uint32_regs_example :
    decode_uint32_regs cdab (encode_uint32_regs cdab 0xDEADBEEF) ≡ 0xDEADBEEF
decode_uint32_regs-encode_uint32_regs_example =
    decode_uint32_regs-encode_uint32_regs cdab 0xDEADBEEF (omega arith)

decode_double_regs-encode_double_regs_run :
    decode_double_regs small_double badc (encode_double_regs small_double badc true) ≡ true
decode_double_regs-encode_double_regs_run =
    decode_double_regs-encode_double_regs small_double badc true

decode_float_regs-encode_float_regs_example :
    decode_float_regs small_float badc (encode_float_regs small_float badc tt) ≡ tt
decode_float_regs-encode_float_regs_example =
    decode_float_regs-encode_float_regs small_float badc tt

-- ===== src/RegisterMap/Typed/Tests.antt =====
-- A register map with a number, a float and a text.
use modbus_pp.Common.{ℕ, ◌≡◌, refl, ◌↔◌, true, List, [], ◌∷◌, arith}
use modbus_pp.Core.Result.{◌>>=◌, ok}
use modbus_pp.Core.Endian.{FloatBits, abcd, cdab}
use modbus_pp.RegisterMap.Typed.{
  RegisterDescriptor, no_overlaps, decode, encode, uint16, uint32, string,
}
use modbus_pp.RegisterMap.Typed.Overlaps.{IsApart, no_overlaps-IsApart, last_register_unchecked}
use modbus_pp.RegisterMap.Typed.Access.{IsAt, decode-encode, decode-encode_other}

abbrev one_float : FloatBits 32
one_float = record {
  Float = Unit {0};
  to_bits = λ x. 0x3F800000;
  of_bits = λ b. tt;
  to_bits-lt = λ x. omega arith;
  of_bits-to_bits = λ x. refl;
}

abbrev one_double : FloatBits 64
one_double = record {
  Float = Unit {0};
  to_bits = λ x. 0;
  of_bits = λ b. tt;
  to_bits-lt = λ x. omega arith;
  of_bits-to_bits = λ x. refl;
}

abbrev counter : RegisterDescriptor
counter = record { type = uint32; address = 10; count = 2; order = cdab }

abbrev label : RegisterDescriptor
label = record { type = string; address = 20; count = 3; order = abcd }

abbrev device : List RegisterDescriptor
device = counter ∷ label ∷ []

counter-IsAt : IsAt device 0 counter
counter-IsAt = record { found = refl; room = omega arith }

label-IsAt : IsAt device 1 label
label-IsAt = record { found = refl; room = omega arith }

abbrev empty : List ℕ
empty = 0 ∷ 0 ∷ 0 ∷ 0 ∷ 0 ∷ []

decode-encode_example :
    (encode one_float one_double true device 0 counter 0x01020304 empty
      >>= decode one_float one_double true device 0 counter)
    ≡ ok 0x01020304
decode-encode_example =
    decode-encode one_float one_double true device empty (omega arith) (omega arith) 0 counter
      0x01020304 counter-IsAt (omega arith)

decode-encode_other_example :
    (encode one_float one_double true device 1 label (97 ∷ []) empty
      >>= decode one_float one_double true device 0 counter)
    ≡ decode one_float one_double true device 0 counter empty
decode-encode_other_example =
    decode-encode_other one_float one_double true device empty (omega arith) (omega arith) 1 0 label
      counter (97 ∷ []) label-IsAt counter-IsAt (λ p. cc)

no_overlaps-IsApart_example : (no_overlaps device ≡ true) ↔ IsApart device
no_overlaps-IsApart_example =
    no_overlaps-IsApart device ((omega arith, omega arith), ((omega arith, omega arith), tt))

-- Both hold the register 65535.
abbrev last : RegisterDescriptor
last = record { type = uint16; address = 0xFFFF; count = 1; order = abcd }

last_register_unchecked_run : no_overlaps (last ∷ last ∷ []) ≡ true
last_register_unchecked_run = last_register_unchecked last last refl

-- ===== src/RegisterMap/TypeCodec/Tests.antt =====
-- Strings in registers at concrete inputs.
use modbus_pp.Common.{ℕ, ◌≡◌, refl, true, List, [], ◌∷◌, arith}
use modbus_pp.RegisterMap.TypeCodec.{widen, encode_string, decode_string}
use modbus_pp.RegisterMap.TypeCodec.Text.{decode_string-encode_string, signed_char_spoils}

-- "abc"
abbrev abc : List ℕ
abc = 97 ∷ 98 ∷ 99 ∷ []

abc_registers : encode_string true abc 3 ≡ 0x6162 ∷ 0x6300 ∷ 0 ∷ []
unfolding encode_string widen
abc_registers = refl

decode_string-encode_string_example : decode_string (encode_string true abc 3) ≡ 97 ∷ 98 ∷ 99 ∷ []
decode_string-encode_string_example =
    decode_string-encode_string true abc 3
      ((omega arith, omega arith), ((omega arith, omega arith), ((omega arith, omega arith), tt)))

-- "aé" in Latin-1.
signed_char_spoils_run : decode_string (encode_string true (97 ∷ 0xE9 ∷ []) 1) ≡ 0xFF ∷ 0xE9 ∷ []
unfolding encode_string decode_string
signed_char_spoils_run = signed_char_spoils 97 0xE9 [] 0 (omega arith) (omega arith) (omega arith)

-- ===== src/RegisterMap/Typed/Values.antt =====
-- One typed value in its registers.
use modbus_pp.Common.{
  ℕ, zero, suc, ◌+◌, ◌*◌, ◌^◌, ◌≤◌, ◌<◌, ◌≡◌, refl, ap, subst, ◌∙◌, Bool, true, List, [], ◌∷◌, ◌++◌,
  arith, leb, length, take, All, length-append, IsWord16,
}
use modbus_pp.Common.Int.{
  FitsHalf, to_unsigned, of_unsigned, of_unsigned-to_unsigned, to_unsigned-lt,
}
use modbus_pp.Core.Result.{ok}
use modbus_pp.Core.Endian.{ByteOrder, FloatBits}
use modbus_pp.Core.Endian.RoundTrip.{
  decode_uint32_regs-encode_uint32_regs, decode_float_regs-encode_float_regs,
  decode_double_regs-encode_double_regs,
}
use modbus_pp.Core.Span.{read, subspan}
use modbus_pp.Core.Span.Append.{subspan_front}
use modbus_pp.RegisterMap.TypeCodec.{encode_string}
use modbus_pp.RegisterMap.TypeCodec.Text.{IsText, decode_string-encode_string}
use modbus_pp.RegisterMap.Typed.{
  RegisterType, read_two, read_four, Value, encoded, decoded, uint16, int16, uint32, int32, float32,
  float64, string,
}

-- How many registers `encode_register` writes and `decode_register` reads.
abbrev pub width : RegisterType → ℕ → ℕ
width uint16 count = 1
width int16 count = 1
width uint32 count = 2
width int32 count = 2
width float32 count = 2
width float64 count = 4
width string count = count

length-encode_string : (s : Bool) (str : List ℕ) (n : ℕ) → length (encode_string s str n) ≡ n
unfolding encode_string
length-encode_string s str zero = refl
length-encode_string s [] (suc n) = ap suc (length-encode_string s [] n)
length-encode_string s (a ∷ []) (suc n) = ap suc (length-encode_string s [] n)
length-encode_string s (a ∷ b ∷ str) (suc n) = ap suc (length-encode_string s str n)

take_all : (n : ℕ) (xs : List ℕ) → length xs ≤ n → take n xs ≡ xs
take_all zero [] h = refl
take_all zero (x ∷ xs) h = absurd (omega arith)
take_all (suc n) [] h = refl
take_all (suc n) (x ∷ xs) h = ap (λ zs. x ∷ zs) (take_all n xs (omega arith))

read-front : (xs ys : List ℕ) (i : ℕ) → i < length xs → read (xs ++ ys) i ≡ read xs i
unfolding read
read-front [] ys i h = absurd (omega arith)
read-front (x ∷ xs) ys zero h = refl
read-front (x ∷ xs) ys (suc i) h = read-front xs ys i (omega arith)

take-front : (n : ℕ) (xs ys : List ℕ) → n ≤ length xs → take n (xs ++ ys) ≡ take n xs
take-front zero xs ys h = refl
take-front (suc n) [] ys h = absurd (omega arith)
take-front (suc n) (x ∷ xs) ys h = ap (λ zs. x ∷ zs) (take-front n xs ys (omega arith))

read_two-front : (xs ys : List ℕ) → 2 ≤ length xs → read_two (xs ++ ys) ≡ read_two xs
read_two-front xs ys h =
    rw (read-front xs ys 0 (omega arith), read-front xs ys 1 (omega arith)) refl

read_four-front : (xs ys : List ℕ) → 4 ≤ length xs → read_four (xs ++ ys) ≡ read_four xs
read_four-front xs ys h =
    rw
      (
        read-front xs ys 0 (omega arith),
        read-front xs ys 1 (omega arith),
        read-front xs ys 2 (omega arith),
        read-front xs ys 3 (omega arith),
      )
      refl

subspan-front : (n : ℕ) (xs ys : List ℕ) → n ≤ length xs → subspan (xs ++ ys) 0 n ≡ subspan xs 0 n
unfolding subspan
subspan-front n xs ys h =
    let here : leb (0 + n) (length (xs ++ ys)) ≡ true = ground (arith, length-append xs ys) in
    let there : leb (0 + n) (length xs) ≡ true = ground arith in
    rw (here, there, take-front n xs ys h) refl

module _ (float : FloatBits 32) (double : FloatBits 64) (char_signed : Bool) where
  -- The values of a type, and the texts that a descriptor has room for.
  abbrev pub IsValue : (type : RegisterType) → ℕ → Value float double char_signed type → Type 0
  IsValue uint16 count value = IsWord16 value
  IsValue int16 count value = FitsHalf (2 ^ 15) value
  IsValue uint32 count value = value < 2 ^ 32
  IsValue int32 count value = FitsHalf (2 ^ 31) value
  IsValue float32 count value = Unit
  IsValue float64 count value = Unit
  IsValue string count value = All (IsText char_signed) value × (length value ≤ 2 * count)

  pub length-encoded :
      (type : RegisterType) (order : ByteOrder) (count : ℕ)
      (value : Value float double char_signed type)
      → length (encoded float double char_signed type order count value) ≡ width type count
  length-encoded uint16 order count value = refl
  length-encoded int16 order count value = refl
  length-encoded uint32 order count value = refl
  length-encoded int32 order count value = refl
  length-encoded float32 order count value = refl
  length-encoded float64 order count value = refl
  length-encoded string order count value = length-encode_string char_signed value count

  -- A value is read from the registers that it was written to, whatever stands behind them.
  pub decoded-encoded :
      (type : RegisterType) (order : ByteOrder) (count : ℕ)
      (value : Value float double char_signed type) (rest : List ℕ)
      → IsValue type count value
      → decoded float double char_signed type order count
          (encoded float double char_signed type order count value ++ rest)
        ≡ ok value
  unfolding read
  decoded-encoded uint16 order count value rest h = refl
  decoded-encoded int16 order count value rest h = ap ok (of_unsigned-to_unsigned (2 ^ 15) value h)
  decoded-encoded uint32 order count value rest h =
      ap ok (decode_uint32_regs-encode_uint32_regs order value h)
  decoded-encoded int32 order count value rest h =
      ap (λ (v : ℕ). ok (of_unsigned (2 ^ 31) v))
        (decode_uint32_regs-encode_uint32_regs order (to_unsigned (2 ^ 31) value)
          (to_unsigned-lt (2 ^ 31) value h))
      ∙ ap ok (of_unsigned-to_unsigned (2 ^ 31) value h)
  decoded-encoded float32 order count value rest h =
      ap ok (decode_float_regs-encode_float_regs float order value)
  decoded-encoded float64 order count value rest h =
      ap ok (decode_double_regs-encode_double_regs double order value)
  decoded-encoded string order count value rest (h, k) =
      let regs = encode_string char_signed value count in
      let whole : subspan (regs ++ rest) 0 count ≡ ok regs =
        subst (λ (n : ℕ). subspan (regs ++ rest) 0 n ≡ ok regs)
          (length-encode_string char_signed value count) (subspan_front regs rest) in
      rw
        (whole, decode_string-encode_string char_signed value count h, take_all (2 * count) value k)
        refl

  -- Only the registers of the value's width are read.
  pub decoded-front :
      (type : RegisterType) (order : ByteOrder) (count : ℕ) (regs rest : List ℕ)
      → width type count ≤ length regs
      → decoded float double char_signed type order count (regs ++ rest)
        ≡ decoded float double char_signed type order count regs
  decoded-front uint16 order count regs rest h = read-front regs rest 0 (omega arith)
  decoded-front int16 order count regs rest h = rw (read-front regs rest 0 (omega arith)) refl
  decoded-front uint32 order count regs rest h = rw (read_two-front regs rest h) refl
  decoded-front int32 order count regs rest h = rw (read_two-front regs rest h) refl
  decoded-front float32 order count regs rest h = rw (read_two-front regs rest h) refl
  decoded-front float64 order count regs rest h = rw (read_four-front regs rest h) refl
  decoded-front string order count regs rest h = rw (subspan-front count regs rest h) refl

-- ===== src/RegisterMap/TypeCodec/Text.antt =====
-- Which strings are read back from their registers.
use modbus_pp.Common.{
  ℕ, zero, suc, ◌+◌, ◌*◌, ◌/◌, ◌%◌, ◌^◌, ◌≤◌, ◌<◌, bit_or, ◌≡◌, refl, ap, ap₂, ◌∙◌, Bool, true,
  false, List, [], ◌∷◌, arith, leb, ◌==◌, if◌then◌else◌, take, All, bit_or_shifted, bit_or_fields,
  bit_or_ones,
}
use modbus_pp.RegisterMap.TypeCodec.{widen, encode_string, decode_pair, decode_string}

-- A character that the compiler's `char` holds without a sign, and that does not end a string.
abbrev pub IsText : Bool → ℕ → Type 0
IsText true b = (0 < b) × (b < 2 ^ 7)
IsText false b = (0 < b) × (b < 2 ^ 8)

widen-IsText : (s : Bool) (b : ℕ) → IsText s b → widen s b ≡ b
unfolding widen
widen-IsText true b h = let (p, q) = h in ground arith
widen-IsText false b h = refl

text_byte : (s : Bool) (b : ℕ) → IsText s b → (0 < b) × (b < 2 ^ 8)
text_byte true b (p, q) = (p, omega arith)
text_byte false b h = h

packed : (a b : ℕ) → a < 2 ^ 8 → b < 2 ^ 8 → bit_or (a * 2 ^ 8 % 2 ^ 16) b ≡ a * 2 ^ 8 + b
packed a b h k =
    let whole : a * 2 ^ 8 % 2 ^ 16 ≡ a * 2 ^ 8 = omega arith in rw whole (bit_or_shifted 8 a b k)

two_bytes :
    (a b : ℕ)
    → a < 2 ^ 8
    → b < 2 ^ 8
    → ((a * 2 ^ 8 + b) / 2 ^ 8 % 2 ^ 8 ≡ a) × ((a * 2 ^ 8 + b) % 2 ^ 8 ≡ b)
two_bytes a b h k = (omega arith, omega arith)

decode_pair_text : (a b : ℕ) (rest : List ℕ) → 0 < a → 0 < b → decode_pair a b rest ≡ a ∷ b ∷ rest
unfolding decode_pair
decode_pair_text a b rest h k =
    let p : (a == 0) ≡ false = ground arith in
    let q : (b == 0) ≡ false = ground arith in rw (p, q) refl

decode_pair_last : (a : ℕ) (rest : List ℕ) → 0 < a → decode_pair a 0 rest ≡ a ∷ []
unfolding decode_pair
decode_pair_last a rest h = let p : (a == 0) ≡ false = ground arith in rw p refl

decode-padding : (s : Bool) (n : ℕ) → decode_string (encode_string s [] n) ≡ []
unfolding decode_string encode_string decode_pair
decode-padding s zero = refl
decode-padding s (suc n) = refl

take_two : (a b n : ℕ) (str : List ℕ) → take (2 * suc n) (a ∷ b ∷ str) ≡ a ∷ b ∷ take (2 * n) str
take_two a b n str = let two : 2 * suc n ≡ suc (suc (2 * n)) = omega arith in rw two refl

-- A string of characters other than 0 that `char` holds without a sign is read back from its
-- registers, cut off at the two characters per register that fit.
pub decode_string-encode_string :
    (s : Bool) (str : List ℕ) (max_registers : ℕ)
    → All (IsText s) str
    → decode_string (encode_string s str max_registers) ≡ take (2 * max_registers) str
unfolding encode_string decode_string
decode_string-encode_string s str zero h = refl
decode_string-encode_string s [] (suc n) h =
    let two : 2 * suc n ≡ suc (suc (2 * n)) = omega arith in rw two (unfold decode_pair in refl)
decode_string-encode_string s (a ∷ []) (suc n) h =
    let (p, q) = text_byte s a h.0 in
    let two : 2 * suc n ≡ suc (suc (2 * n)) = omega arith in
    let hi : a * 2 ^ 8 % 2 ^ 16 / 2 ^ 8 % 2 ^ 8 ≡ a = omega arith in
    let lo : a * 2 ^ 8 % 2 ^ 16 % 2 ^ 8 ≡ 0 = omega arith in
    rw
      (
        widen-IsText s a h.0,
        hi,
        lo,
        two,
        decode_pair_last a (decode_string (encode_string s [] n)) p,
      )
      refl
decode_string-encode_string s (a ∷ b ∷ str) (suc n) h =
    let (p, q) = text_byte s a h.0 in
    let (p', q') = text_byte s b h.1.0 in
    let (hi, lo) = two_bytes a b q q' in
    rw (widen-IsText s a h.0, widen-IsText s b h.1.0, packed a b q q', hi, lo, take_two a b n str)
      (decode_pair_text a b _ p p'
        ∙ ap (λ zs. a ∷ b ∷ zs) (decode_string-encode_string s str n h.1.1))

spoiled :
    (a b : ℕ)
    → a < 2 ^ 8
    → 0x80 ≤ b
    → b < 2 ^ 8
    → bit_or (widen true a * 2 ^ 8 % 2 ^ 16) (widen true b) ≡ 0xFF * 2 ^ 8 + b
unfolding widen
spoiled a b h k l =
    let first : (if leb 0x80 a then 0xFF00 + a else a) * 2 ^ 8 % 2 ^ 16 ≡ a * 2 ^ 8 + 0 =
      ground arith in
    let second : (if leb 0x80 b then 0xFF00 + b else b) ≡ 0xFF * 2 ^ 8 + b = ground arith in
    rw (first, second)
      (bit_or_fields 8 a 0xFF 0 b (omega arith) l
        ∙ ap₂ (λ (x y : ℕ). x * 2 ^ 8 + y) (bit_or_ones 8 a 0xFF h refl)
            (omega (arith, bit_or_shifted 8 0 b l)))

-- Where `char` is signed, a character of 0x80 or more in the second place of a register makes the
-- one in its first place 0xFF, whatever that was.
pub signed_char_spoils :
    (a b : ℕ) (str : List ℕ) (n : ℕ)
    → a < 2 ^ 8
    → 0x80 ≤ b
    → b < 2 ^ 8
    → decode_string (encode_string true (a ∷ b ∷ str) (suc n))
      ≡ 0xFF ∷ b ∷ decode_string (encode_string true str n)
unfolding encode_string decode_string
signed_char_spoils a b str n h k l =
    let (hi, lo) = two_bytes 0xFF b (omega arith) l in
    rw (spoiled a b h k l, hi, lo) (decode_pair_text 0xFF b _ (omega arith) (omega arith))

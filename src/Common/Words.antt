-- ===== src/Common/Words.antt =====
-- Bytes and 16-bit words: `static_cast<byte_t>(w >> 8)`, `w & 0xFF` and `(hi << 8) | lo`.
use Prim.Native.Nat.{ℕ, ◌+◌, ◌*◌, ◌/◌, ◌%◌, ◌^◌, ◌<◌, bit_or}
use mathlib.Core.Path.{◌≡◌}
use mathlib.Core.List.{List, [], ◌∷◌}
use native.Mathlib.Omega.{arith}
use modbus_pp.Common.Bits.{bit_or_shifted}
use modbus_pp.Common.Lists.{length, All}

abbrev pub IsByte : ℕ → Type 0
IsByte b = b < 2 ^ 8

abbrev pub IsWord16 : ℕ → Type 0
IsWord16 w = w < 2 ^ 16

abbrev pub AreBytes : List ℕ → Type 0
AreBytes = All IsByte

abbrev pub hi_byte : ℕ → ℕ
hi_byte w = w / 2 ^ 8 % 2 ^ 8

abbrev pub lo_byte : ℕ → ℕ
lo_byte w = w % 2 ^ 8

unfoldable pub word16 : ℕ → ℕ → ℕ
word16 hi lo = bit_or (hi * 2 ^ 8) lo % 2 ^ 16

word16_sum : (hi lo : ℕ) → IsByte hi → IsByte lo → word16 hi lo ≡ hi * 2 ^ 8 + lo
unfolding word16
word16_sum hi lo h l = omega (arith, bit_or_shifted 8 hi lo l)

pub word16-IsWord16 : (hi lo : ℕ) → IsWord16 (word16 hi lo)
unfolding word16
word16-IsWord16 hi lo = omega arith

-- A 16-bit word is joined again from its two bytes.
pub word16_bytes : (w : ℕ) → IsWord16 w → word16 (hi_byte w) (lo_byte w) ≡ w
word16_bytes w h = omega (arith, word16_sum (hi_byte w) (lo_byte w) (omega arith) (omega arith))

pub hi_byte-word16 : (hi lo : ℕ) → IsByte hi → IsByte lo → hi_byte (word16 hi lo) ≡ hi
hi_byte-word16 hi lo h l = omega (arith, word16_sum hi lo h l)

pub lo_byte-word16 : (hi lo : ℕ) → IsByte hi → IsByte lo → lo_byte (word16 hi lo) ≡ lo
lo_byte-word16 hi lo h l = omega (arith, word16_sum hi lo h l)

-- `for (auto reg : regs) { push_back(reg >> 8); push_back(reg & 0xFF); }`
abbrev pub register_bytes : List ℕ → List ℕ
register_bytes [] = []
register_bytes (reg ∷ regs) = hi_byte reg ∷ lo_byte reg ∷ register_bytes regs

pub length-register_bytes : (regs : List ℕ) → length (register_bytes regs) ≡ 2 * length regs
length-register_bytes [] = omega arith
length-register_bytes (reg ∷ regs) = omega (arith, length-register_bytes regs)

-- ===== src/Core/Pdu/Flags.antt =====
-- The two header flags that `make_extended` sets: each is set apart from the other.
use modbus_pp.Common.{
  ℕ, bit_or, ◌≡◌, refl, ◌∙◌, Bool, true, false, arith, bit_and-one, bit_and-two, bit_or-one,
  bit_or-two, IsWord16,
}
use modbus_pp.Core.FunctionCodes
use modbus_pp.Core.Pdu.{flag_if}

timestamp_set : (flags : ℕ) → FunctionCodes.has_flag (bit_or flags 1) 1 ≡ true
timestamp_set flags = ground (arith, bit_and-one (bit_or flags 1), bit_or-one flags)

hmac_set : (flags : ℕ) → FunctionCodes.has_flag (bit_or flags 2) 2 ≡ true
hmac_set flags = ground (arith, bit_and-two (bit_or flags 2), bit_or-two flags)

hmac_kept : (flags : ℕ) → FunctionCodes.has_flag (bit_or flags 1) 2 ≡ FunctionCodes.has_flag flags 2
hmac_kept flags = ground (arith, bit_and-two (bit_or flags 1), bit_or-one flags, bit_and-two flags)

timestamp_kept :
    (flags : ℕ) → FunctionCodes.has_flag (bit_or flags 2) 1 ≡ FunctionCodes.has_flag flags 1
timestamp_kept flags =
    ground (arith, bit_and-one (bit_or flags 2), bit_or-two flags, bit_and-one flags)

-- The flags of the frame that `make_extended` builds.
abbrev pub made_flags : Bool → Bool → ℕ → ℕ
made_flags stamped signed flags = flag_if signed 2 (flag_if stamped 1 flags)

pub made_flags-IsWord16 :
    (stamped signed : Bool) (flags : ℕ)
    → IsWord16 flags
    → IsWord16 (made_flags stamped signed flags)
made_flags-IsWord16 false false flags h = h
made_flags-IsWord16 true false flags h = omega (arith, bit_or-one flags)
made_flags-IsWord16 false true flags h = omega (arith, bit_or-two flags)
made_flags-IsWord16 true true flags h = omega (arith, bit_or-one flags, bit_or-two (bit_or flags 1))

pub made_flags_timestamp :
    (stamped signed : Bool) (flags : ℕ)
    → (stamped ≡ false → FunctionCodes.has_flag flags 1 ≡ false)
    → FunctionCodes.has_flag (made_flags stamped signed flags) 1 ≡ stamped
made_flags_timestamp false false flags h = h refl
made_flags_timestamp true false flags h = timestamp_set flags
made_flags_timestamp false true flags h = timestamp_kept flags ∙ h refl
made_flags_timestamp true true flags h = timestamp_kept (bit_or flags 1) ∙ timestamp_set flags

pub made_flags_hmac :
    (stamped signed : Bool) (flags : ℕ)
    → (signed ≡ false → FunctionCodes.has_flag flags 2 ≡ false)
    → FunctionCodes.has_flag (made_flags stamped signed flags) 2 ≡ signed
made_flags_hmac false false flags h = h refl
made_flags_hmac true false flags h = hmac_kept flags ∙ h refl
made_flags_hmac false true flags h = hmac_set flags
made_flags_hmac true true flags h = hmac_set (bit_or flags 1)

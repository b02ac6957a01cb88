-- ===== src/Core/Timestamp/RoundTrip.antt =====
-- Timestamp::serialize and Timestamp::deserialize are inverse to one another.
use native.Mathlib.Nat.{pow-suc}
use modbus_pp.Common.{
  ℕ, zero, suc, ◌+◌, ◌*◌, ◌/◌, ◌%◌, ◌^◌, ◌<◌, bit_or, ◌≡◌, refl, ap, ◌∙◌, List, [], ◌∷◌, arith,
  length, bit_or_shifted, IsByte,
}
use modbus_pp.Common.Int.{to_u64, of_u64-to_u64, to_u64-lt}
use modbus_pp.Core.Timestamp.{
  Timestamp, IsValid, serialize_loop, serialize, deserialize_loop, deserialize,
}

shift_in : (val b : ℕ) → val < 2 ^ 56 → IsByte b → bit_or (val * 2 ^ 8 % 2 ^ 64) b ≡ val * 2 ^ 8 + b
shift_in val b h k =
    omega (arith, bit_or_shifted 8 val b k, ap (λ (t : ℕ). bit_or t b) (fits val h))
  where
    fits : (val : ℕ) → val < 2 ^ 56 → val * 2 ^ 8 % 2 ^ 64 ≡ val * 2 ^ 8
    fits val h = omega arith

-- Reading back what the loop wrote restores the value in front of what follows.
deserialize_loop-serialize_loop :
    (n val : ℕ) (buf : List ℕ)
    → val < 2 ^ 64
    → val < 256 ^ n
    → deserialize_loop 0 (serialize_loop n val buf) ≡ deserialize_loop val buf
unfolding serialize_loop
deserialize_loop-serialize_loop zero val buf h k =
    let none_left : val ≡ 0 = omega arith in rw none_left
deserialize_loop-serialize_loop (suc n) val buf h k =
    deserialize_loop-serialize_loop n (val / 2 ^ 8) (val % 2 ^ 8 ∷ buf) (omega arith)
      (omega (arith, pow-suc 256 n))
    ∙ last_byte val buf h
  where
    last_byte :
        (val : ℕ) (buf : List ℕ)
        → val < 2 ^ 64
        → deserialize_loop (val / 2 ^ 8) (val % 2 ^ 8 ∷ buf) ≡ deserialize_loop val buf
    last_byte val buf h =
        let whole : bit_or (val / 2 ^ 8 * 2 ^ 8 % 2 ^ 64) (val % 2 ^ 8) ≡ val =
          omega (arith, shift_in (val / 2 ^ 8) (val % 2 ^ 8) (omega arith) (omega arith)) in
        unfold deserialize_loop in ap (λ (t : ℕ). deserialize_loop t buf) whole

-- A timestamp whose microseconds fit 64 bits is restored from its eight bytes.
pub deserialize-serialize : (t : Timestamp) → IsValid t → deserialize (serialize t) ≡ t
unfolding serialize deserialize
deserialize-serialize t h = cc (
  deserialize_loop-serialize_loop 8 (to_u64 t.us_since_epoch) [] (to_u64-lt _) (to_u64-lt _),
  of_u64-to_u64 t.us_since_epoch h,
)

pub length-serialize : (t : Timestamp) → length (serialize t) ≡ 8
unfolding serialize
length-serialize t = refl

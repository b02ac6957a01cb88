-- ===== src/Core/Endian/Bytes.antt =====
-- The byte orders and the big-endian bytes of a value.
use modbus_pp.Common.{ℕ, ◌+◌, ◌*◌, ◌/◌, ◌^◌, ◌<◌, ◌≡◌, refl, ◌∙◌, arith, bit_or_field, IsByte}
use modbus_pp.Core.Endian.{
  ByteOrder, Bytes4, Bytes8, reorder4, reorder8, nth_byte, to_big_endian_bytes4,
  to_big_endian_bytes8, or_byte, from_big_endian_bytes4, from_big_endian_bytes8, abcd, dcba, badc,
  cdab,
}

-- Each byte order is undone by applying it once more.
pub reorder4-reorder4 : (o : ByteOrder) (bytes : Bytes4) → reorder4 o (reorder4 o bytes) ≡ bytes
unfolding reorder4
reorder4-reorder4 abcd bytes = refl
reorder4-reorder4 dcba bytes = refl
reorder4-reorder4 badc bytes = refl
reorder4-reorder4 cdab bytes = refl

-- Reordering eight bytes twice in one byte order gives them back.
pub reorder8-reorder8 : (o : ByteOrder) (bytes : Bytes8) → reorder8 o (reorder8 o bytes) ≡ bytes
unfolding reorder8
reorder8-reorder8 abcd bytes = refl
reorder8-reorder8 dcba bytes = refl
reorder8-reorder8 badc bytes = refl
reorder8-reorder8 cdab bytes = refl

abbrev pub Are4Bytes : Bytes4 → Type 0
Are4Bytes (a, b, c, d) = IsByte a × IsByte b × IsByte c × IsByte d

from_big_endian4_sum :
    (a b c d : ℕ)
    → Are4Bytes (a, b, c, d)
    → from_big_endian_bytes4 (a, b, c, d) ≡ a * 2 ^ 24 + b * 2 ^ 16 + c * 2 ^ 8 + d
unfolding from_big_endian_bytes4
from_big_endian4_sum a b c d h =
    let one : or_byte 4 0 0 a ≡ a * 2 ^ 24 =
      omega (arith, bit_or_field 32 0 0 (a * 2 ^ 24) (omega arith) (omega arith)) in
    let two : or_byte 4 1 (a * 2 ^ 24) b ≡ a * 2 ^ 24 + b * 2 ^ 16 =
      omega (arith, bit_or_field 24 a (a * 2 ^ 24) (b * 2 ^ 16) refl (omega arith)) in
    let three : or_byte 4 2 (a * 2 ^ 24 + b * 2 ^ 16) c ≡ a * 2 ^ 24 + b * 2 ^ 16 + c * 2 ^ 8 =
      omega (
        arith,
        bit_or_field 16 (a * 2 ^ 8 + b) (a * 2 ^ 24 + b * 2 ^ 16) (c * 2 ^ 8) (omega arith)
            (omega arith),
      ) in
    let four : or_byte 4 3 (a * 2 ^ 24 + b * 2 ^ 16 + c * 2 ^ 8) d
        ≡ a * 2 ^ 24 + b * 2 ^ 16 + c * 2 ^ 8 + d =
      omega (
        arith,
        bit_or_field 8 (a * 2 ^ 16 + b * 2 ^ 8 + c) (a * 2 ^ 24 + b * 2 ^ 16 + c * 2 ^ 8)
            (d * 2 ^ 0) (omega arith) (omega arith),
      ) in
    rw (one, two, three) four

pub from-to_big_endian4 : (v : ℕ) → v < 2 ^ 32 → from_big_endian_bytes4 (to_big_endian_bytes4 v) ≡ v
unfolding to_big_endian_bytes4
from-to_big_endian4 v h = omega (
  arith,
  from_big_endian4_sum (nth_byte 4 0 v) (nth_byte 4 1 v) (nth_byte 4 2 v) (nth_byte 4 3 v)
      (omega arith, omega arith, omega arith, omega arith),
)

-- Each round of the eight-byte loop: what is read so far is the value without its lower bytes.
module _ (v : ℕ) (h : v < 2 ^ 64) where
  round0 : or_byte 8 0 0 (nth_byte 8 0 v) ≡ v / 2 ^ 56 * 2 ^ 56
  round0 = omega (arith, bit_or_field 64 0 0 (nth_byte 8 0 v * 2 ^ 56) (omega arith) (omega arith))

  round1 : or_byte 8 1 (v / 2 ^ 56 * 2 ^ 56) (nth_byte 8 1 v) ≡ v / 2 ^ 48 * 2 ^ 48
  round1 = omega (
    arith,
    bit_or_field 56 (v / 2 ^ 56) (v / 2 ^ 56 * 2 ^ 56) (nth_byte 8 1 v * 2 ^ 48) refl (omega arith),
  )

  round2 : or_byte 8 2 (v / 2 ^ 48 * 2 ^ 48) (nth_byte 8 2 v) ≡ v / 2 ^ 40 * 2 ^ 40
  round2 = omega (
    arith,
    bit_or_field 48 (v / 2 ^ 48) (v / 2 ^ 48 * 2 ^ 48) (nth_byte 8 2 v * 2 ^ 40) refl (omega arith),
  )

  round3 : or_byte 8 3 (v / 2 ^ 40 * 2 ^ 40) (nth_byte 8 3 v) ≡ v / 2 ^ 32 * 2 ^ 32
  round3 = omega (
    arith,
    bit_or_field 40 (v / 2 ^ 40) (v / 2 ^ 40 * 2 ^ 40) (nth_byte 8 3 v * 2 ^ 32) refl (omega arith),
  )

  round4 : or_byte 8 4 (v / 2 ^ 32 * 2 ^ 32) (nth_byte 8 4 v) ≡ v / 2 ^ 24 * 2 ^ 24
  round4 = omega (
    arith,
    bit_or_field 32 (v / 2 ^ 32) (v / 2 ^ 32 * 2 ^ 32) (nth_byte 8 4 v * 2 ^ 24) refl (omega arith),
  )

  round5 : or_byte 8 5 (v / 2 ^ 24 * 2 ^ 24) (nth_byte 8 5 v) ≡ v / 2 ^ 16 * 2 ^ 16
  round5 = omega (
    arith,
    bit_or_field 24 (v / 2 ^ 24) (v / 2 ^ 24 * 2 ^ 24) (nth_byte 8 5 v * 2 ^ 16) refl (omega arith),
  )

  round6 : or_byte 8 6 (v / 2 ^ 16 * 2 ^ 16) (nth_byte 8 6 v) ≡ v / 2 ^ 8 * 2 ^ 8
  round6 = omega (
    arith,
    bit_or_field 16 (v / 2 ^ 16) (v / 2 ^ 16 * 2 ^ 16) (nth_byte 8 6 v * 2 ^ 8) refl (omega arith),
  )

  round7 : or_byte 8 7 (v / 2 ^ 8 * 2 ^ 8) (nth_byte 8 7 v) ≡ v / 2 ^ 0 * 2 ^ 0
  round7 = omega (
    arith,
    bit_or_field 8 (v / 2 ^ 8) (v / 2 ^ 8 * 2 ^ 8) (nth_byte 8 7 v * 2 ^ 0) refl (omega arith),
  )

  pub from-to_big_endian8 : from_big_endian_bytes8 (to_big_endian_bytes8 v) ≡ v
  unfolding to_big_endian_bytes8 from_big_endian_bytes8
  from-to_big_endian8 =
      rw (round0, round1, round2, round3, round4, round5, round6) (round7 ∙ omega arith)

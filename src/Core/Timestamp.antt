-- ===== src/Core/Timestamp.antt =====
-- include/modbus_pp/core/timestamp.hpp: microseconds since the epoch, and their eight bytes.
pub mod RoundTrip
mod Tests
use modbus_pp.Common.{ℕ, zero, suc, ◌*◌, ◌/◌, ◌%◌, ◌^◌, bit_or, Bool, not, ◌&&◌, List, [], ◌∷◌}
use modbus_pp.Common.Int.{ℤ, ◌-ℤ◌, ltb_ℤ, IsInt64, to_u64, of_u64, pos}

pub record Timestamp : Type 0 where
  pub us_since_epoch : ℤ

abbrev pub IsValid : Timestamp → Type 0
IsValid t = IsInt64 t.us_since_epoch

abbrev pub from_epoch_us : ℤ → Timestamp
from_epoch_us us = record { us_since_epoch = us }

-- `for (int i = 7; i >= 0; --i) { buf[i] = val & 0xFF; val >>= 8; }`: `buf` is what stands from
-- index `i` on.
pub serialize_loop : ℕ → ℕ → List ℕ → List ℕ
serialize_loop zero val buf = buf
serialize_loop (suc i) val buf = serialize_loop i (val / 2 ^ 8) (val % 2 ^ 8 ∷ buf)

unfoldable pub serialize : Timestamp → List ℕ
unfolding serialize_loop
serialize t = serialize_loop 8 (to_u64 t.us_since_epoch) []

-- `val = (val << 8) | data[i]` on a `std::uint64_t`.
unfoldable pub deserialize_loop : ℕ → List ℕ → ℕ
deserialize_loop val [] = val
deserialize_loop val (b ∷ bytes) = deserialize_loop (bit_or (val * 2 ^ 8 % 2 ^ 64) b) bytes

unfoldable pub deserialize : List ℕ → Timestamp
unfolding deserialize_loop
deserialize bytes = from_epoch_us (of_u64 (deserialize_loop 0 bytes))

-- `a < b` and `a > b` on timestamps.
abbrev pub before : Timestamp → Timestamp → Bool
before a b = ltb_ℤ a.us_since_epoch b.us_since_epoch

-- `==`, `!=`, `<=` and `>=`.
abbrev pub same_time : Timestamp → Timestamp → Bool
same_time a b = not (before a b) && not (before b a)

abbrev pub not_after : Timestamp → Timestamp → Bool
not_after a b = not (before b a)

-- The default constructor.
abbrev pub epoch : Timestamp
epoch = from_epoch_us (pos 0)

-- A value with the time of its acquisition; `Stamped::now` takes a reading of the clock.
pub record Stamped {ℓ} (T : Type ℓ) : Type ℓ where
  pub value : T
  pub timestamp : Timestamp

abbrev pub stamped_now {ℓ} : {T : Type ℓ} → Timestamp → T → Stamped T
stamped_now now v = record { value = v; timestamp = now }

-- `now - sent` in microseconds.
abbrev pub elapsed : Timestamp → Timestamp → ℤ
elapsed now sent = now.us_since_epoch -ℤ sent.us_since_epoch

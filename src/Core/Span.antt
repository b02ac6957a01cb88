-- ===== src/Core/Span.antt =====
-- `span_t` of include/modbus_pp/core/types.hpp: reads and sub-views of a buffer. Where C++ reads
-- past the end, the answer is `fault`.
pub mod Append
pub mod Bounds
use modbus_pp.Common.{
  ℕ, zero, suc, ◌+◌, ◌-◌, Option, none, some, List, [], ◌∷◌, leb, if◌then◌else◌, length, get_elem?,
  take, drop, word16,
}
use modbus_pp.Core.Result.{Result, ◌>>=◌, ok, fault}

abbrev or_fault {ℓ} : {A : Type ℓ} → Option A → Result A
or_fault none = fault
or_fault (some a) = ok a

module _ {ℓ} {A : Type ℓ} where
  -- `raw[i]`
  unfoldable pub read : List A → ℕ → Result A
  read raw i = or_fault (get_elem? raw i)

  -- The `count` elements from `raw.data() + offset` on.
  unfoldable pub subspan : List A → ℕ → ℕ → Result (List A)
  subspan raw offset count =
      if leb (offset + count) (length raw) then ok (take count (drop offset raw)) else fault

  -- The first `count` elements, and the last ones.
  abbrev pub span_first : List A → ℕ → Result (List A)
  span_first raw count = subspan raw 0 count

  abbrev pub span_last : List A → ℕ → Result (List A)
  span_last raw count = if leb count (length raw) then ok (drop (length raw - count) raw) else fault

-- `(static_cast<std::uint16_t>(raw[i]) << 8) | raw[i + 1]`
unfoldable pub read_word16 : List ℕ → ℕ → Result ℕ
unfolding read
read_word16 raw i = do hi ← read raw i; lo ← read raw (i + 1); ok (word16 hi lo)

-- `count` registers from `offset` on, two bytes each.
unfoldable pub read_registers : ℕ → List ℕ → ℕ → Result (List ℕ)
read_registers zero raw offset = ok []
read_registers (suc count) raw offset = do
  reg ← read_word16 raw offset
  regs ← read_registers count raw (offset + 2)
  ok (reg ∷ regs)

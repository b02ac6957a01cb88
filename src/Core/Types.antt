-- ===== src/Core/Types.antt =====
-- The tagged integers of include/modbus_pp/core/types.hpp: `StrongType<Tag, T>` for an unsigned `T` of
-- `w` bits.
mod Tests
use modbus_pp.Common.{ℕ, ◌+◌, ◌%◌, ◌^◌, Bool, ltb, leb, ◌==◌}

-- The empty structures that tell the types apart.
pub data Tag : Type 0 where
  address_tag : Tag
  quantity_tag : Tag
  unit_id_tag : Tag

pub record StrongType (tag : Tag) (w : ℕ) : Type 0 where
  pub value : ℕ

abbrev pub RegisterAddress : Type 0
RegisterAddress = StrongType address_tag 16

abbrev pub RegisterCount : Type 0
RegisterCount = StrongType quantity_tag 16

abbrev pub UnitId : Type 0
UnitId = StrongType unit_id_tag 8

module _ {tag : Tag} {w : ℕ} where
  -- `StrongType(T v)`, for a value that the caller has converted to `T`.
  abbrev pub strong : ℕ → StrongType tag w
  strong v = record { value = v % 2 ^ w }

  -- `++x`: what is returned is what the object then holds.
  abbrev pub pre_increment : StrongType tag w → StrongType tag w × StrongType tag w
  pre_increment x =
      let next : StrongType tag w = record { value = (x.value + 1) % 2 ^ w } in (next, next)

  -- `x++`: what is returned is what the object held.
  abbrev pub post_increment : StrongType tag w → StrongType tag w × StrongType tag w
  post_increment x = (x, record { value = (x.value + 1) % 2 ^ w })

  abbrev pub same_value : StrongType tag w → StrongType tag w → Bool
  same_value a b = a.value == b.value

  abbrev pub less : StrongType tag w → StrongType tag w → Bool
  less a b = ltb a.value b.value

  abbrev pub at_most : StrongType tag w → StrongType tag w → Bool
  at_most a b = leb a.value b.value

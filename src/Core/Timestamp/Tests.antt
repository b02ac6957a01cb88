-- ===== src/Core/Timestamp/Tests.antt =====
-- Runs of the timestamp codec, and its theorem at a concrete input.
use modbus_pp.Common.{◌≡◌, refl, [], ◌∷◌, arith}
use modbus_pp.Common.Int.{to_u64, negsuc}
use modbus_pp.Core.Timestamp.{Timestamp, from_epoch_us, serialize, deserialize}
use modbus_pp.Core.Timestamp.RoundTrip.{deserialize-serialize}

abbrev minus_two : Timestamp
minus_two = from_epoch_us (negsuc 1)

serialize_negative : serialize minus_two ≡ 255 ∷ 255 ∷ 255 ∷ 255 ∷ 255 ∷ 255 ∷ 255 ∷ 254 ∷ []
unfolding serialize to_u64
serialize_negative = refl

deserialize-serialize_run : deserialize (serialize minus_two) ≡ minus_two
deserialize-serialize_run = deserialize-serialize minus_two (omega arith)

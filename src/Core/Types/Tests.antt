-- ===== src/Core/Types/Tests.antt =====
-- Tagged integers at concrete values.
use modbus_pp.Common.{◌≡◌, refl, true}
use modbus_pp.Core.Types.{UnitId, strong, pre_increment, post_increment, less}

abbrev last_unit : UnitId
last_unit = strong 255

wraps : (pre_increment last_unit).0.value ≡ 0
wraps = refl

returns_old : (post_increment last_unit).0.value ≡ 255
returns_old = refl

wrapped_is_less : less (post_increment last_unit).1 last_unit ≡ true
wrapped_is_less = refl

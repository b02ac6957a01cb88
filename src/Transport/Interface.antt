-- ===== src/Transport/Interface.antt =====
-- `class Transport` of include/modbus_pp/transport/transport.hpp: what the library asks of a
-- connection. `W` is the state of the connection and of whatever is at its other end.
use Prim.Native.String.{String}
use modbus_pp.Common.{ℕ, Bool, List}
use modbus_pp.Core.Result.{Result}

pub record Transport (W : Type 0) : Type 0 where
  pub send : List ℕ → W → Result (Unit {0}) × W
  pub receive : W → Result (List ℕ) × W

-- The other operations: the life cycle of the connection, and the name.
pub record Lifecycle (W : Type 0) : Type 0 where
  pub connect : W → Result (Unit {0}) × W
  pub disconnect : W → W
  pub is_connected : W → Bool
  pub transport_name : String

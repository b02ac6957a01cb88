-- ===== src/Discovery/Found.antt =====
-- The scanner against a slave of this library, over the in-process transport.
use modbus_pp.Core.Result.{Result}
use modbus_pp.Core.FunctionCodes
use modbus_pp.Core.Timestamp.{Timestamp}
use modbus_pp.Core.Pdu.{Pdu}
use modbus_pp.Transport.Loopback
use modbus_pp.Client.Server.{Server}

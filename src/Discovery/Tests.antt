-- ===== src/Discovery/Tests.antt =====
-- The scanner on a bus whose answers are written down, and against a slave.
use modbus_pp.Common.{ℕ, suc, ◌≡◌, none, some, List, [], ◌∷◌, arith}
use modbus_pp.Common.Int.{pos}
use modbus_pp.Core.Result.{Result, ok, err}
use modbus_pp.Core.Error.{timeout_expired}
use modbus_pp.Core.FunctionCodes
use modbus_pp.Core.Timestamp.{Timestamp}
use modbus_pp.Core.Pdu.{default_header, Pdu, make_extended}
use modbus_pp.Transport.Interface.{Transport}
use modbus_pp.Transport.FrameCodec.{wrap_tcp}
use modbus_pp.Client.Server.{Server}
use modbus_pp.Discovery.Scanner.{ScannerConfig, scan, complete, scan_async}
use modbus_pp.Discovery.Range.{units, probe_each, scan-probe_each, told, scan_async-scan}

-- The answers of the bus, one per frame that is sent; an empty frame is none.
abbrev Bus : Type 0
Bus = List (List ℕ)

abbrev answered : Bus → Result (List ℕ) × Bus
answered [] = (err timeout_expired, [])
answered ([] ∷ bus) = (err timeout_expired, bus)
answered ((b ∷ frame) ∷ bus) = (ok (b ∷ frame), bus)

abbrev bus_transport : Transport Bus
bus_transport = record { send = λ frame w. (ok tt, w); receive = answered }

abbrev noon : {W : Type 0} → W → Timestamp
noon w = record { us_since_epoch = pos 12 }

-- Nobody at 254; an extended device at 255.
abbrev capable : Pdu
capable =
    make_extended (record default_header { ext_function_code = FunctionCodes.discover_response })
      (0 ∷ 0 ∷ 0 ∷ 0x0F ∷ []) none

abbrev two_units : Bus
two_units = [] ∷ (1 ∷ []) ∷ wrap_tcp 255 capable 511 ∷ []

abbrev upper : ScannerConfig
upper = record { scan_timeout = 500; range_start = 254; range_end = 255 }

scan-probe_each_example :
    scan bus_transport noon upper two_units
    ≡ probe_each bus_transport noon (254 ∷ 255 ∷ []) two_units
unfolding units
scan-probe_each_example = scan-probe_each bus_transport noon upper two_units (omega arith)

scan_async-scan_run :
    scan_async bus_transport noon (λ info n. suc n) none upper 0 two_units
    ≡ complete bus_transport noon
        (λ info n. suc n)
        none
        (told bus_transport noon (λ info n. suc n) none (scan bus_transport noon upper two_units) 0)
scan_async-scan_run = scan_async-scan bus_transport noon (λ info n. suc n) none upper 0 two_units

abbrev one_register : ℕ → ℕ → ℕ → Result (List ℕ) × ℕ
one_register s addr count = (ok (s ∷ []), suc s)

abbrev slave : Server ℕ
slave = record { unit_id = 9; read_handler = some one_register; write_handler = none }

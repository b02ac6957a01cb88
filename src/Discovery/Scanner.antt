-- ===== src/Discovery/Scanner.antt =====
-- src/discovery/scanner.cpp and include/modbus_pp/discovery/device_info.hpp. `now` reads the clock.
-- `fault` stands for a loop over the units that has not ended after 256 rounds, and for what the
-- calls leave undefined.
use modbus_pp.Common.{
  ℕ, zero, suc, ◌+◌, ◌*◌, ◌%◌, ◌^◌, bit_and, bit_or, Bool, true, false, not, Option, none, some,
  List, [], ◌∷◌, leb, ◌==◌, if◌then◌else◌,
}
use modbus_pp.Core.Result.{Result, ok, err, fault}
use modbus_pp.Core.FunctionCodes
use modbus_pp.Core.Timestamp.{Timestamp}
use modbus_pp.Core.Pdu.{FrameHeader, default_header, Pdu, make_standard, make_extended}
use modbus_pp.Client.Master.{Client}
use modbus_pp.Transport.Interface.{Transport}
use modbus_pp.Transport.FrameCodec.{wrap_tcp, unwrap_tcp}

-- `Capability` is its underlying number, as a word of the wire is cast to it.
abbrev has_capability : ℕ → ℕ → Bool
has_capability caps cap = not (bit_and caps cap == 0)

-- The names of vendor, product and firmware stay empty.
pub record DeviceInfo : Type 0 where
  pub unit_id : ℕ
  pub vendor : List ℕ
  pub product_code : List ℕ
  pub firmware_version : List ℕ
  pub supports_extended : Bool
  pub extension_version : ℕ
  pub discovered_at : Timestamp
  pub capabilities : ℕ

pub record ScannerConfig : Type 0 where
  pub scan_timeout : ℕ
  pub range_start : ℕ
  pub range_end : ℕ

-- A device that responded to the first request.
abbrev pub alive : ℕ → Timestamp → DeviceInfo
alive unit_id now = record {
  unit_id = unit_id;
  vendor = [];
  product_code = [];
  firmware_version = [];
  supports_extended = false;
  extension_version = 0;
  discovered_at = now;
  capabilities = 0;
}

abbrev capabilities_of : List ℕ → ℕ → ℕ
capabilities_of (a ∷ b ∷ c ∷ d ∷ rest) none_yet =
    bit_or (bit_or (bit_or (a * 2 ^ 24) (b * 2 ^ 16)) (c * 2 ^ 8)) d
capabilities_of payload none_yet = none_yet

abbrev is_discover_response : Option FrameHeader → Bool
is_discover_response none = false
is_discover_response (some header) = header.ext_function_code == FunctionCodes.discover_response

abbrev extended_info : DeviceInfo → Pdu → DeviceInfo
extended_info info pdu =
    if is_discover_response pdu.ext_header
    then record info {
      supports_extended = true;
      extension_version = 1;
      capabilities = capabilities_of pdu.payload info.capabilities;
    }
    else info

-- `if (unwrap) { ... }`: a frame that does not unwrap changes nothing.
abbrev unwrapped : DeviceInfo → Result (ℕ × Pdu × ℕ) → Result DeviceInfo
unwrapped info (ok (uid, pdu, txn)) = ok (extended_info info pdu)
unwrapped info (err e) = ok info
unwrapped info fault = fault

abbrev probe_frame : ℕ → List ℕ
probe_frame unit_id =
    wrap_tcp unit_id (make_standard FunctionCodes.read_holding_registers (0 ∷ 0 ∷ 0 ∷ 1 ∷ []))
      unit_id

abbrev pub discover_pdu : Pdu
discover_pdu =
    make_extended (record default_header { ext_function_code = FunctionCodes.discover }) [] none

abbrev discover_frame : ℕ → List ℕ
discover_frame unit_id = wrap_tcp unit_id discover_pdu ((unit_id + 256) % 2 ^ 16)

module _ {W : Type 0} (transport : Transport W) (now : W → Timestamp) where
  -- `if (ext_recv) { ... }` and `if (ext_send) { ... }`
  abbrev after_ext_receive : DeviceInfo → Result (List ℕ) × W → Result DeviceInfo × W
  after_ext_receive info (ok frame, w) = (unwrapped info (unwrap_tcp frame), w)
  after_ext_receive info (err e, w) = (ok info, w)
  after_ext_receive info (fault, w) = (fault, w)

  abbrev after_ext_send : DeviceInfo → Result (Unit {0}) × W → Result DeviceInfo × W
  after_ext_send info (ok sent, w) = after_ext_receive info (transport.receive w)
  after_ext_send info (err e, w) = (ok info, w)
  after_ext_send info (fault, w) = (fault, w)

  abbrev after_receive : ℕ → Result (List ℕ) × W → Result DeviceInfo × W
  after_receive unit_id (ok frame, w) =
      after_ext_send (alive unit_id (now w)) (transport.send (discover_frame unit_id) w)
  after_receive unit_id (err e, w) = (err e, w)
  after_receive unit_id (fault, w) = (fault, w)

  abbrev after_send : ℕ → Result (Unit {0}) × W → Result DeviceInfo × W
  after_send unit_id (ok sent, w) = after_receive unit_id (transport.receive w)
  after_send unit_id (err e, w) = (err e, w)
  after_send unit_id (fault, w) = (fault, w)

  unfoldable pub probe : ℕ → W → Result DeviceInfo × W
  probe unit_id w = after_send unit_id (transport.send (probe_frame unit_id) w)

  abbrev pub push_front : DeviceInfo → Result (List DeviceInfo) × W → Result (List DeviceInfo) × W
  push_front info (ok devices, w) = (ok (info ∷ devices), w)
  push_front info (err e, w) = (err e, w)
  push_front info (fault, w) = (fault, w)

  -- After one probe: a device that was found comes before those of the rest of the loop.
  abbrev pub after_probe :
      (W → Result (List DeviceInfo) × W) → Result DeviceInfo × W → Result (List DeviceInfo) × W
  after_probe go_on (ok info, w) = push_front info (go_on w)
  after_probe go_on (err e, w) = go_on w
  after_probe go_on (fault, w) = (fault, w)

  -- `for (unit_id_t id = ...; id <= range_end; ++id) { ...; if (id == range_end) break; }`
  unfoldable pub scan_loop : ℕ → ℕ → ℕ → W → Result (List DeviceInfo) × W
  scan_loop zero range_end id w = (fault, w)
  scan_loop (suc rounds) range_end id w =
      if leb id range_end
      then after_probe
          (λ w'.
            if id == range_end
            then (ok [], w')
            else scan_loop rounds range_end ((id + 1) % 2 ^ 8) w')
          (probe id w)
      else (ok [], w)

  unfoldable pub scan : ScannerConfig → W → Result (List DeviceInfo) × W
  scan config w = scan_loop 256 config.range_end config.range_start w

  -- The callbacks change a state `C` of the program that passes them.
  module _ {C : Type 0} (on_found : DeviceInfo → C → C) (on_complete : Option (C → C)) where
    abbrev completed : Option (C → C) → C → C
    completed none c = c
    completed (some f) c = f c

    abbrev pub after_async_probe : (C → W → Result C × W) → C → Result DeviceInfo × W → Result C × W
    after_async_probe go_on c (ok info, w) = go_on (on_found info c) w
    after_async_probe go_on c (err e, w) = go_on c w
    after_async_probe go_on c (fault, w) = (fault, w)

    unfoldable pub scan_async_loop : ℕ → ℕ → ℕ → C → W → Result C × W
    scan_async_loop zero range_end id c w = (fault, w)
    scan_async_loop (suc rounds) range_end id c w =
        if leb id range_end
        then after_async_probe
            (λ c' w'.
              if id == range_end
              then (ok c', w')
              else scan_async_loop rounds range_end ((id + 1) % 2 ^ 8) c' w')
            c (probe id w)
        else (ok c, w)

    abbrev pub complete : Result C × W → Result C × W
    complete (ok c, w) = (ok (completed on_complete c), w)
    complete (err e, w) = (err e, w)
    complete (fault, w) = (fault, w)

    unfoldable pub scan_async : ScannerConfig → C → W → Result C × W
    scan_async config c w = complete (scan_async_loop 256 config.range_end config.range_start c w)

  -- `Client::discover`: a scanner over the client's own connection.
  abbrev discover : ScannerConfig → Client W → Result (List DeviceInfo) × Client W
  discover config c = let (r, w) = scan config c.world in (r, record c { world = w })

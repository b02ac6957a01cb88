-- ===== src/Core/FunctionCodes.antt =====
-- include/modbus_pp/core/function_codes.hpp. The enumerations are their underlying numbers, since
-- a byte of the wire is cast to each.
use modbus_pp.Common.{ℕ, bit_and, bit_or, Bool, not, ◌==◌}

abbrev read_coils : ℕ
read_coils = 0x01

abbrev read_discrete_inputs : ℕ
read_discrete_inputs = 0x02

abbrev pub read_holding_registers : ℕ
read_holding_registers = 0x03

abbrev read_input_registers : ℕ
read_input_registers = 0x04

abbrev write_single_coil : ℕ
write_single_coil = 0x05

abbrev pub write_single_register : ℕ
write_single_register = 0x06

abbrev write_multiple_coils : ℕ
write_multiple_coils = 0x0F

abbrev pub write_multiple_registers : ℕ
write_multiple_registers = 0x10

abbrev read_write_multiple_regs : ℕ
read_write_multiple_regs = 0x17

abbrev pub extended : ℕ
extended = 0x6E

abbrev pub extended_stream : ℕ
extended_stream = 0x6F

-- `ExtendedFunctionCode`
abbrev pub batch_read : ℕ
batch_read = 0x01

abbrev pub event_notification : ℕ
event_notification = 0x05

abbrev pub auth_challenge : ℕ
auth_challenge = 0x06

abbrev pub auth_response : ℕ
auth_response = 0x07

abbrev pub discover : ℕ
discover = 0x08

abbrev pub discover_response : ℕ
discover_response = 0x09

abbrev pub pipeline_begin : ℕ
pipeline_begin = 0x0A

-- `FrameFlag`
abbrev pub has_timestamp : ℕ
has_timestamp = 0x0001

abbrev pub has_hmac : ℕ
has_hmac = 0x0002

abbrev pub set_flag : ℕ → ℕ → ℕ
set_flag flags flag = bit_or flags flag

abbrev pub has_flag : ℕ → ℕ → Bool
has_flag flags flag = not (bit_and flags flag == 0)

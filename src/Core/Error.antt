-- ===== src/Core/Error.antt =====
-- include/modbus_pp/core/error.hpp: an `ErrorCode` is its underlying `int`, since the client casts
-- a byte of the wire to one. A `std::error_code` of the library is such a value in one category.
mod Message
use modbus_pp.Common.{ℕ}

abbrev pub ErrorCode : Type 0
ErrorCode = ℕ

abbrev pub success : ErrorCode
success = 0

abbrev pub illegal_function : ErrorCode
illegal_function = 1

abbrev pub illegal_data_address : ErrorCode
illegal_data_address = 2

abbrev pub illegal_data_value : ErrorCode
illegal_data_value = 3

abbrev pub slave_device_failure : ErrorCode
slave_device_failure = 4

abbrev pub acknowledge : ErrorCode
acknowledge = 5

abbrev pub slave_device_busy : ErrorCode
slave_device_busy = 6

abbrev pub negative_acknowledge : ErrorCode
negative_acknowledge = 7

abbrev pub memory_parity_error : ErrorCode
memory_parity_error = 8

abbrev pub gateway_path_unavailable : ErrorCode
gateway_path_unavailable = 0x0A

abbrev pub gateway_target_failed : ErrorCode
gateway_target_failed = 0x0B

abbrev pub authentication_failed : ErrorCode
authentication_failed = 0x80

abbrev pub session_expired : ErrorCode
session_expired = 0x81

abbrev pub hmac_mismatch : ErrorCode
hmac_mismatch = 0x82

abbrev pub pipeline_overflow : ErrorCode
pipeline_overflow = 0x83

abbrev pub subscription_limit_reached : ErrorCode
subscription_limit_reached = 0x84

abbrev pub payload_too_large : ErrorCode
payload_too_large = 0x85

abbrev pub fragment_reassembly_failed : ErrorCode
fragment_reassembly_failed = 0x86

abbrev pub transport_disconnected : ErrorCode
transport_disconnected = 0x87

abbrev pub timeout_expired : ErrorCode
timeout_expired = 0x88

abbrev pub type_codec_mismatch : ErrorCode
type_codec_mismatch = 0x89

abbrev pub unsupported_version : ErrorCode
unsupported_version = 0x8A

abbrev pub correlation_mismatch : ErrorCode
correlation_mismatch = 0x8B

abbrev pub batch_partial_failure : ErrorCode
batch_partial_failure = 0x8C

abbrev pub invalid_frame : ErrorCode
invalid_frame = 0x8D

abbrev pub crc_mismatch : ErrorCode
crc_mismatch = 0x8E

abbrev pub deserialization_failed : ErrorCode
deserialization_failed = 0x8F

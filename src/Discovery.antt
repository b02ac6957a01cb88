-- ===== src/Discovery.antt =====
-- src/discovery/scanner.cpp and include/modbus_pp/discovery/: the devices of a bus.
pub mod Scanner
pub mod Range
pub mod Found
mod Tests

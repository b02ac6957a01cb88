-- ===== src/Core.antt =====
-- The core of the library: errors, results, views on bytes, timestamps and protocol data units.
pub mod Error
pub mod Types
pub mod Result
pub mod Span
pub mod FunctionCodes
pub mod Timestamp
pub mod Pdu
pub mod Endian

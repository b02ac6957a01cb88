-- ===== src/Transport.antt =====
-- The transport layer: checksums, framing, and the in-process transport.
pub mod Crc
pub mod FrameCodec
pub mod Interface
pub mod Lifecycle
pub mod Loopback
pub mod Posix
pub mod Tcp
pub mod Rtu

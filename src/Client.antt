-- ===== src/Client.antt =====
-- The master and the slave of the protocol, over the transport interface.
pub mod Server
pub mod Action
pub mod Master
pub mod Served
pub mod Streamed

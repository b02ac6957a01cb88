-- ===== src/Pipeline.antt =====
-- Requests in flight: include/modbus_pp/pipeline and src/pipeline.
pub mod RequestQueue
pub mod Transactions
pub mod Sync
pub mod History
pub mod Unserved
pub mod OutOfOrder
mod Tests

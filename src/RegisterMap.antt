-- ===== src/RegisterMap.antt =====
-- The register map layer: typed registers, batch requests and responses.
pub mod Batch
pub mod TypeCodec
pub mod Typed

-- ===== src/Common.antt =====
-- common: helpers for bytes.
pub mod Bytes

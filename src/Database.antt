-- ===== src/Database.antt =====
-- database: what is stored.
pub mod UtxoView

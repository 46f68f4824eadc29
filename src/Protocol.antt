-- ===== src/Protocol.antt =====
-- protocol and protocol/state: the chain.
pub mod BlockIndex

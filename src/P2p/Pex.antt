-- ===== src/P2p/Pex.antt =====
-- p2p/pex: the exchange of peer addresses.
pub mod KnownAddress
pub mod AddrBook
pub mod Groups
pub mod Reactor

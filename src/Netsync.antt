-- ===== src/Netsync.antt =====
-- netsync: the synchronisation of blocks.
pub mod BlockKeeper
pub mod BestPeer

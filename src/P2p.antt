-- ===== src/P2p.antt =====
-- p2p: the network.
pub mod Channel
pub mod PeerSet
pub mod NodeInfo
pub mod Ip
pub mod NetAddress
pub mod BanScore
pub mod Connection
pub mod Pex
pub mod Switch
pub mod SecretConnection

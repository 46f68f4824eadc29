-- ===== src/Bc.antt =====
-- protocol/bc: the package of hashes, assets and Merkle trees.
pub mod Words
pub mod Hash
pub mod Merkle
pub mod Entry
pub mod Asset
pub mod TxStatus

-- ===== src/Encoding.antt =====
-- encoding/blockchain/blockchain.go
pub mod WriteStrings
pub mod Reader
pub mod Varint
pub mod Write
pub mod Uvarint
pub mod Reads
pub mod Varints
pub mod Strings
pub mod Laws

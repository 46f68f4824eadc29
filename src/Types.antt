-- ===== src/Types.antt =====
-- protocol/bc/types: transactions and blocks, and their readers.
pub mod Loop
pub mod TxOutput
pub mod TxInput
pub mod Transaction
pub mod Block

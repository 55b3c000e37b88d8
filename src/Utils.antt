-- ===== src/Utils.antt =====
-- Helpers of src/utils: byte strings, the RLP encoding, transactions.
pub mod Bytes
pub mod Rlp
pub mod Tx
pub mod Merkle
pub mod Block
pub mod Hex
pub mod Strings

-- ===== src/Protocol.antt =====
-- crates/protocol: transactions and blocks. What the crates sha2, bincode and serde_json compute is
-- a parameter, the record `Codec`.
pub mod Codec
pub mod Transaction
pub mod Block
pub mod Decoding

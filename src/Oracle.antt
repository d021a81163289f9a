-- ===== src/Oracle.antt =====
-- crates/oracle
pub mod Esplora
pub mod Credits
pub mod Polling

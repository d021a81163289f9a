-- ===== src/Abci.antt =====
-- crates/abci: the chain's state, the executor of its transactions, and the interface that the node
-- and the consensus talk to.
pub mod ChainState
pub mod Executor
pub mod Db
pub mod RocksDb
pub mod Messages
pub mod Interface
pub mod Tests

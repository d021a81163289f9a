-- ===== src/Types.antt =====
-- crates/types
pub mod Consensus
pub mod Proto
pub mod ReadBack
pub mod Broadcast
mod Tests
pub mod Network
pub mod Direct

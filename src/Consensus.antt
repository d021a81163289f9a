-- ===== src/Consensus.antt =====
-- crates/consensus: rounds, leaders and votes.
pub mod State
pub mod Messages
pub mod Engine
pub mod Starting
pub mod Voting
pub mod Handler
pub mod Leader
pub mod Votes
pub mod Quorum
pub mod Once
pub mod Heard
pub mod Precommits
pub mod Duplicates
pub mod SameRound
pub mod Forward
pub mod Proposals
mod Tests
pub mod Announcements

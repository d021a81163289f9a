-- ===== src/Types/Consensus.antt =====
-- crates/types/src/consensus.rs
use threshold.Prelude.{ℕ, Bytes}

pub record LeaderAnnouncement : Type 0 where
  pub leader : Bytes
  pub round : ℕ

pub data VoteType : Type 0 where
  prevote precommit : VoteType

pub record Vote : Type 0 where
  pub round : ℕ
  pub height : ℕ
  pub block_hash : Bytes
  pub voter : Bytes
  pub vote_type : VoteType

pub data ConsensusMessage : Type 0 where
  leader_announcement : LeaderAnnouncement → ConsensusMessage
  new_round : ℕ → ConsensusMessage
  vote : Vote → ConsensusMessage
  block_proposal : (proposer raw_block : Bytes) → ConsensusMessage

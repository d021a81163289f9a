-- ===== src/Consensus/Messages.antt =====
-- crates/consensus/src/lib.rs: the messages that the consensus answers, and its answers.
use threshold.Prelude.{ℕ, Bool, Option, String, Bytes}
use threshold.Types.Consensus.{Vote}
use threshold.Consensus.State.{ConsensusPhase}

pub data ConsensusMessage : Type 0 where
  start_new_round : ℕ → ConsensusMessage
  handle_vote : (sender : Bytes) → Vote → ConsensusMessage
  handle_new_round : (sender : Bytes) (round : ℕ) → ConsensusMessage
  handle_leader_announcement : (sender leader : Bytes) (round : ℕ) → ConsensusMessage
  handle_block_proposal : (sender raw_block : Bytes) → ConsensusMessage
  trigger_consensus_round : (force_round : Bool) → ConsensusMessage
  set_leader : (is_leader : Bool) → ConsensusMessage
  add_validator : (peer_id : Bytes) → ConsensusMessage
  get_consensus_state : ConsensusMessage

pub record StateReport : Type 0 where
  pub phase : ConsensusPhase
  pub round : ℕ
  pub height : ℕ
  pub is_leader : Bool
  pub validators_count : ℕ
  pub prevotes_count : ℕ
  pub precommits_count : ℕ

pub data ConsensusResponse : Type 0 where
  start_new_round handle_vote handle_new_round handle_leader_announcement handle_block_proposal :
      Option String → ConsensusResponse
  trigger_consensus_round :
      (success : Bool) (message : String) (round_number : ℕ) → ConsensusResponse
  set_leader add_validator : Option String → ConsensusResponse
  get_consensus_state : StateReport → ConsensusResponse

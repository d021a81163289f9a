-- ===== src/Consensus/State.antt =====
-- crates/consensus/src/lib.rs: `ConsensusState`. `P` is `libp2p::PeerId`, with its equality and order.
use threshold.Prelude.{
  ℕ, ◌%◌, Bool, false, Option, none, List, [], ◌∷◌, String, Bytes, Ord, length, get_elem?,
  sort_by_key,
}

pub data ConsensusPhase : Type 0 where
  waiting_for_propose propose prevote : ConsensusPhase

-- Durations are in seconds, and instants are numbers. A `HashSet` is the list of its elements.
pub record ConsensusState (P : Type 0) : Type 0 where
  pub current_state : ConsensusPhase
  pub current_round : ℕ
  pub current_height : ℕ
  pub proposer : Option P
  pub validators : List P
  pub broadcast_topic : String
  pub round_timeout : ℕ
  pub round_start_time : Option ℕ
  pub is_leader : Bool
  pub prevotes : List P
  pub precommits : List P
  pub current_block_hash : Option Bytes
  pub block_finalized : Bool

-- `ConsensusState::new`
unfoldable pub new_state : {P : Type 0} → ConsensusState P
new_state = record {
  current_state = waiting_for_propose;
  current_round = 0;
  current_height = 0;
  proposer = none;
  validators = [];
  broadcast_topic = "broadcast";
  round_timeout = 10;
  round_start_time = none;
  is_leader = false;
  prevotes = [];
  precommits = [];
  current_block_hash = none;
  block_finalized = false;
}

module _ {P : Type 0} ⦃o : Ord P⦄ where
  -- the body of `select_leader` for a set that is not empty
  unfoldable pub leader_at : List P → ℕ → Option P
  leader_at validators round =
      get_elem? (sort_by_key (λ p. p) validators) (round % length validators)

  abbrev pub leader_of : List P → ℕ → Option P
  leader_of [] round = none
  leader_of (p ∷ ps) round = leader_at (p ∷ ps) round

  unfoldable pub select_leader : ConsensusState P → ℕ → Option P
  unfolding leader_at
  select_leader s round = leader_of s.validators round

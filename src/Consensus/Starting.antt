-- ===== src/Consensus/Starting.antt =====
-- consensus_interface.rs: starting a round, and proposing as its leader.
use threshold.Prelude.{
  ℕ, Bool, false, Option, none, some, [], Eq, Ord, ◌==◌, nat_eq, Action, pure, lift, gets, modify,
  ◌>>=◌, ◌>>◌, add32, if◌then◌else◌,
}
use threshold.Types.Consensus.{LeaderAnnouncement, Vote, VoteType, prevote, precommit}
use threshold.Types.Consensus as Net
use threshold.Consensus.State.{ConsensusPhase, waiting_for_propose, ConsensusState, select_leader}
use threshold.Consensus.Engine.{
  Env, Engine, set_state, send_broadcast, peer_bytes, get_proposed_block,
}

-- `self.peer_id == Some(q)`
abbrev pub is_peer : {P : Type 0} ⦃e : Eq P⦄ → Option P → P → Bool
is_peer none q = false
is_peer (some p) q = p == q

-- The last part of `start_new_round`.
unfoldable pub reset_round : {P : Type 0} → (now : ℕ) → ConsensusState P → ConsensusState P
reset_round now st = record st {
  current_state = waiting_for_propose;
  round_start_time = some now;
  prevotes = [];
  precommits = [];
  current_block_hash = none;
  block_finalized = false;
}

module _ {P S J K : Type 0} ⦃e : Eq P⦄ ⦃o : Ord P⦄ (env : Env P S J K) where
  -- The part of `start_new_round` for the leader that was selected, if one was.
  unfoldable pub elect : Option P → Action (Engine P S) (Unit {0})
  unfolding send_broadcast
  elect none = pure tt
  elect (some new_leader) = do
    modify (λ e.
        set_state
          (λ st. record st { proposer = some new_leader; is_leader = is_peer e.peer_id new_leader })
          e)
    st ← gets (λ e. e.state)
    if st.is_leader
        then send_broadcast (
            Net.leader_announcement
              (record { leader = env.to_bytes new_leader; round = st.current_round }))
        else pure tt

  unfoldable pub start_new_round : (now : ℕ) → Action (Engine P S) (Unit {0})
  unfolding elect reset_round select_leader
  start_new_round now = do
    modify (set_state (λ st. record st { current_round = add32 st.current_round 1 }))
    leader ← gets (λ e. select_leader e.state e.state.current_round)
    elect leader
    modify (set_state (reset_round now))

  unfoldable pub propose_block_as_leader : Action (Engine P S) (Unit {0})
  unfolding get_proposed_block send_broadcast
  propose_block_as_leader = do
    proposer ← gets (λ e. peer_bytes env e.peer_id)
    block ← get_proposed_block env proposer
    raw_block ← lift (env.serialize block)
    send_broadcast (Net.block_proposal proposer raw_block)
    modify (set_state (λ st. record st { current_state = ConsensusPhase.prevote }))

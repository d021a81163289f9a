-- ===== src/Consensus/Voting.antt =====
-- consensus_interface.rs: block proposals of others, and votes.
use threshold.Prelude.{
  ◌*◌, ◌/◌, Bool, true, not, ◌&&◌, List, ◌∷◌, Bytes, Eq, nat_eq, leb, ok, err, Action, pure, lift,
  gets, modify, ◌>>=◌, ◌>>◌, length, contains, if◌then◌else◌,
}
use threshold.Protocol.Codec.{Codec}
use threshold.Protocol.Block.{Block, block_eqb}
use threshold.Types.Consensus.{LeaderAnnouncement, Vote, VoteType, prevote, precommit}
use threshold.Types.Consensus as Net
use threshold.Consensus.Engine.{
  Env, Engine, set_state, send_broadcast, peer_bytes, get_proposed_block, finalize_block,
}

-- The test for two thirds of the validators, as the code computes it.
unfoldable pub has_quorum : {P : Type 0} → List P → List P → Bool
has_quorum votes validators = leb (length validators * 2 / 3) (length votes)

module _ {P S J K : Type 0} (env : Env P S J K) where
  abbrev pub vote_now : Bytes → VoteType → Engine P S → Vote
  vote_now block_hash vote_type e = record {
    round = e.state.current_round;
    height = e.state.current_height;
    block_hash = block_hash;
    voter = peer_bytes env e.peer_id;
    vote_type = vote_type;
  }

module _ {P S J K : Type 0} (c : Codec J) (env : Env P S J K) where
  unfoldable pub send_vote : Block J → VoteType → Action (Engine P S) (Unit {0})
  unfolding send_broadcast
  send_vote block vote_type = do
    block_bytes ← lift (env.serialize block)
    vote ← gets (vote_now env (c.sha256 block_bytes) vote_type)
    send_broadcast (Net.vote vote)

  unfoldable pub check_proposal : Block J → Action (Engine P S) (Unit {0})
  unfolding get_proposed_block send_vote
  check_proposal block = do
    proposer ← gets (λ e. peer_bytes env e.state.proposer)
    local_block ← get_proposed_block env proposer
    if block_eqb c local_block block then send_vote block prevote else pure tt

  -- A block that cannot be read is dropped without an error.
  unfoldable pub handle_block_proposal : Bytes → Action (Engine P S) (Unit {0})
  unfolding check_proposal
  handle_block_proposal raw_block = elim (env.deserialize raw_block) [
    | ok block ↦ check_proposal block
    | err x ↦ pure tt
  ]

-- `.ok()`: the error of an action is dropped, what it did is not.
abbrev pub ignoring : {P S A : Type 0} → Action (Engine P S) A → Engine P S → Engine P S
ignoring m e = (m e).1

module _ {P S J K : Type 0} ⦃e : Eq P⦄ (env : Env P S J K) where
  unfoldable pub process_prevote_vote : P → Vote → Engine P S → Engine P S
  unfolding send_broadcast has_quorum
  process_prevote_vote sender vote e =
      if contains e.state.prevotes sender
      then e
      else let e' = set_state (λ st. record st { prevotes = sender ∷ st.prevotes }) e in
        if has_quorum e'.state.prevotes e'.state.validators
        then ignoring (send_broadcast (Net.vote (vote_now env vote.block_hash precommit e'))) e'
        else e'

  -- What follows the second quorum: the block is asked for anew, with this node as its proposer.
  unfoldable pub finalize_own : Action (Engine P S) (Unit {0})
  unfolding get_proposed_block finalize_block
  finalize_own = do
    proposer ← gets (λ e. peer_bytes env e.peer_id)
    block ← get_proposed_block env proposer
    finalize_block env block
    modify (set_state (λ st. record st { current_height = block.header.height }))

  unfoldable pub process_precommit_vote : P → Vote → Engine P S → Engine P S
  unfolding finalize_own has_quorum
  process_precommit_vote sender vote e =
      if contains e.state.precommits sender
      then e
      else let e' = set_state (λ st. record st { precommits = sender ∷ st.precommits }) e in
        if has_quorum e'.state.precommits e'.state.validators && not e'.state.block_finalized
        then ignoring finalize_own (set_state (λ st. record st { block_finalized = true }) e')
        else e'

  abbrev pub process_vote : VoteType → P → Vote → Engine P S → Engine P S
  process_vote prevote sender vote e = process_prevote_vote sender vote e
  process_vote precommit sender vote e = process_precommit_vote sender vote e

  -- With messages for debugging on, a hash of fewer than 8 bytes makes this panic; they are off here.
  unfoldable pub handle_vote : P → Vote → Engine P S → Engine P S
  unfolding process_prevote_vote process_precommit_vote
  handle_vote sender vote e =
      if contains e.state.validators sender then process_vote vote.vote_type sender vote e else e

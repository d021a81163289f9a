-- ===== src/Consensus/SameRound.antt =====
-- consensus_interface.rs: votes and proposals leave a node in its round.
use threshold.Prelude.{
  refl, arith, inl, inr, Bool, true, false, not, ◌&&◌, ◌∷◌, Bytes, Eq, contains, Result-cases,
  if◌then◌else◌,
}
use threshold.Prelude.Moves.{Moves}
use threshold.Protocol.Codec.{Codec}
use threshold.Protocol.Block.{Block}
use threshold.Abci.Messages.{ChainMessage}
use threshold.Types.Consensus.{Vote, VoteType, prevote, precommit}
use threshold.Consensus.Engine.{
  Env, Engine, set_state, ask_chain, get_proposed_block, finalize_block,
}
use threshold.Consensus.Voting.{
  send_vote, check_proposal, handle_block_proposal, process_prevote_vote, process_precommit_vote,
  finalize_own, handle_vote, process_vote, has_quorum,
}
use threshold.Consensus.Announcements.{SameRound, round_rules, send_broadcast-SameRound}

module _ {P S J K : Type 0} (env : Env P S J K) where
  ask_chain-SameRound :
      (message : ChainMessage J K) → Moves (SameRound {P = P} {S = S}) (ask_chain env message)
  unfolding ask_chain
  ask_chain-SameRound message = record { at = λ e. ground arith }

  ruleset chain_rules = (round_rules, ask_chain-SameRound)

  get_proposed_block-SameRound :
      (proposer : Bytes) → Moves (SameRound {P = P} {S = S}) (get_proposed_block env proposer)
  unfolding get_proposed_block
  get_proposed_block-SameRound proposer = search chain_rules

  finalize_block-SameRound :
      (block : Block J) → Moves (SameRound {P = P} {S = S}) (finalize_block env block)
  unfolding finalize_block
  finalize_block-SameRound block = search chain_rules

  send_vote-SameRound :
      (c : Codec J) (block : Block J) (kind : VoteType)
      → Moves (SameRound {P = P} {S = S}) (send_vote c env block kind)
  unfolding send_vote
  send_vote-SameRound c block kind = search chain_rules depth 12

  check_proposal-SameRound :
      (c : Codec J) (block : Block J)
      → Moves (SameRound {P = P} {S = S}) (check_proposal c env block)
  unfolding check_proposal
  check_proposal-SameRound c block =
      search (chain_rules, get_proposed_block-SameRound, send_vote-SameRound) depth 12

  pub handle_block_proposal-SameRound :
      (c : Codec J) (raw_block : Bytes) (e : Engine P S)
      → SameRound e (handle_block_proposal c env raw_block e).1
  unfolding handle_block_proposal
  handle_block_proposal-SameRound c raw_block e = elim (Result-cases (env.deserialize raw_block)) [
    | inl (block, read) ↦ rw (read, handle_block_proposal) ((check_proposal-SameRound c block).at e)
    | inr (x, failed) ↦ rw (failed, handle_block_proposal) refl
  ]

module _ {P S J K : Type 0} ⦃q : Eq P⦄ (env : Env P S J K) where
  finalize_own-SameRound : Moves (SameRound {P = P} {S = S}) (finalize_own env)
  unfolding finalize_own
  finalize_own-SameRound =
      search (chain_rules, get_proposed_block-SameRound, finalize_block-SameRound) depth 12

  if-SameRound :
      (b : Bool) (e x y : Engine P S)
      → SameRound e x
      → SameRound e y
      → SameRound e (if b then x else y)
  if-SameRound true e x y h k = h
  if-SameRound false e x y h k = k

  process_vote-SameRound :
      (kind : VoteType) (sender : P) (vote : Vote) (e : Engine P S)
      → SameRound e (process_vote env kind sender vote e)
  unfolding process_prevote_vote process_precommit_vote
  process_vote-SameRound prevote sender vote e =
      let e' = set_state (λ st. record st { prevotes = sender ∷ st.prevotes }) e in
      if-SameRound (contains e.state.prevotes sender) e e _ refl (
        if-SameRound (has_quorum e'.state.prevotes e'.state.validators) e _ e'
          ((send_broadcast-SameRound _).at e') refl)
  process_vote-SameRound precommit sender vote e =
      let e' = set_state (λ st. record st { precommits = sender ∷ st.precommits }) e in
      if-SameRound (contains e.state.precommits sender) e e _ refl (
        if-SameRound
          (has_quorum e'.state.precommits e'.state.validators && not e'.state.block_finalized) e _
          e' (finalize_own-SameRound.at (set_state (λ st. record st { block_finalized = true }) e'))
          refl)

  pub handle_vote-SameRound :
      (sender : P) (vote : Vote) (e : Engine P S) → SameRound e (handle_vote env sender vote e)
  unfolding handle_vote
  handle_vote-SameRound sender vote e =
      if-SameRound (contains e.state.validators sender) e _ e
        (process_vote-SameRound vote.vote_type sender vote e) refl

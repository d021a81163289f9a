-- ===== src/Consensus/Proposals.antt =====
-- consensus_interface.rs: which proposals a node votes for.
use threshold.Prelude.{
  ◌≡◌, ◌∙◌, refl, arith, ◌⊎◌, inl, inr, true, Bool-cases, Option, none, some, List, [], Bytes,
  Result, ok, err, Result-cases, pure, then_do, if◌then◌else◌,
}
use threshold.Prelude.Moves.{Preorder, Moves, moves_rules}
use threshold.Protocol.Codec.{Codec}
use threshold.Protocol.Block.{Block, block_eqb}
use threshold.Abci.Messages.{ChainMessage}
use threshold.Types.Consensus as Net
use threshold.Types.Consensus.{prevote}
use threshold.Consensus.Engine.{Env, Engine, Channel, ask_chain, get_proposed_block, peer_bytes}
use threshold.Consensus.Voting.{send_vote, check_proposal, handle_block_proposal}

-- What the node sent so far.
abbrev sent_on : Option Channel → List Net.ConsensusMessage
sent_on none = []
sent_on (some channel) = channel.sent

abbrev pub sent_by : {P S : Type 0} → Engine P S → List Net.ConsensusMessage
sent_by e = sent_on e.network_events_tx

abbrev Silent : {P S : Type 0} → Engine P S → Engine P S → Type 0
Silent e f = sent_by f ≡ sent_by e

Silent-preorder : {P S : Type 0} → Preorder (Silent {P = P} {S = S})
Silent-preorder = record { stay = λ e. refl; chain = λ d e f h k. k ∙ h }

module _ {P S J K : Type 0} (env : Env P S J K) where
  ask_chain-Silent :
      (message : ChainMessage J K) → Moves (Silent {P = P} {S = S}) (ask_chain env message)
  unfolding ask_chain
  ask_chain-Silent message = record { at = λ e. ground arith }

  get_proposed_block-Silent :
      (proposer : Bytes) → Moves (Silent {P = P} {S = S}) (get_proposed_block env proposer)
  unfolding get_proposed_block
  get_proposed_block-Silent proposer = search (moves_rules, Silent-preorder, ask_chain-Silent)

module _ {P S J K : Type 0} (c : Codec J) (env : Env P S J K) where
  -- The block that the node's own chain proposes for the leader that the node knows.
  abbrev pub own_proposal : Engine P S → Result (Block J)
  own_proposal e = (get_proposed_block env (peer_bytes env e.state.proposer) e).0

  then_vote-Silent :
      (block : Block J) (e : Engine P S) (r : Result (Block J)) (f : Engine P S)
      → Silent e f
      → let g =
          (then_do
            (r, f)
            (λ own. if block_eqb c own block then send_vote c env block prevote else pure tt)).1 in
        Silent e g ⊎ ((own : Block J) × (r ≡ ok own) × (block_eqb c own block ≡ true))
  then_vote-Silent block e (err x) f h = inl h
  then_vote-Silent block e (ok own) f h = elim (Bool-cases (block_eqb c own block)) [
    | inl equal ↦ inr (own, refl, equal)
    | inr different ↦ inl (rw different h)
  ]

  check_proposal-Silent :
      (block : Block J) (e : Engine P S)
      → Silent e (check_proposal c env block e).1
        ⊎ ((own : Block J) × (own_proposal e ≡ ok own) × (block_eqb c own block ≡ true))
  unfolding check_proposal
  check_proposal-Silent block e =
      let proposer = peer_bytes env e.state.proposer in
      let (r, f) = get_proposed_block env proposer e in
      then_vote-Silent block e r f ((get_proposed_block-Silent env proposer).at e)

  -- A node that handles a proposal sends nothing, unless the proposal can be read and its own chain
  -- proposes a block that passes for equal.
  pub handle_block_proposal-votes :
      (raw_block : Bytes) (e : Engine P S)
      → (sent_by (handle_block_proposal c env raw_block e).1 ≡ sent_by e)
        ⊎ ((block : Block J) × (own : Block J) × (env.deserialize raw_block ≡ ok block)
            × (own_proposal e ≡ ok own)
            × (block_eqb c own block ≡ true))
  unfolding handle_block_proposal
  handle_block_proposal-votes raw_block e = elim (Result-cases (env.deserialize raw_block)) [
    | inr (x, failed) ↦ inl (rw (failed, handle_block_proposal) refl)
    | inl (block, read) ↦ elim (check_proposal-Silent block e) [
      | inl silent ↦ inl (rw (read, handle_block_proposal) silent)
      | inr (own, proposed, equal) ↦ inr (block, own, read, proposed, equal)
    ]
  ]

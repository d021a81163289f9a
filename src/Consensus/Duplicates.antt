-- ===== src/Consensus/Duplicates.antt =====
-- consensus_interface.rs: a vote that arrives again.
use threshold.Prelude.{
  ◌≡◌, ap, ◌∙◌, refl, arith, Bool, true, false, not, ◌&&◌, Bool-cases, inl, inr, List, ◌∷◌, Bytes,
  Eq, ==_refl, contains, if◌then◌else◌,
}
use threshold.Prelude.Moves.{Preorder, Moves, moves_rules}
use threshold.Protocol.Block.{Block}
use threshold.Abci.Messages.{ChainMessage}
use threshold.Types.Consensus as Net
use threshold.Types.Consensus.{Vote, VoteType, prevote, precommit}
use threshold.Consensus.Engine.{
  Env, Engine, set_state, send_broadcast, ask_chain, get_proposed_block, finalize_block,
}
use threshold.Consensus.Voting.{
  has_quorum, handle_vote, process_vote, process_prevote_vote, process_precommit_vote, finalize_own,
  vote_now,
}

abbrev votes_of : {P S : Type 0} → VoteType → Engine P S → List P
votes_of prevote e = e.state.prevotes
votes_of precommit e = e.state.precommits

-- The validators and the counted votes are the same.
record SameVotes {P S : Type 0} (e f : Engine P S) : Type 0 where
  same_validators : f.state.validators ≡ e.state.validators
  same_prevotes : f.state.prevotes ≡ e.state.prevotes
  same_precommits : f.state.precommits ≡ e.state.precommits

module _ {P S : Type 0} where
  SameVotes-preorder : Preorder (SameVotes {P = P} {S = S})
  SameVotes-preorder = record {
    stay = λ e. record { same_validators = refl; same_prevotes = refl; same_precommits = refl };
    chain = λ d e f h k. record {
      same_validators = k.same_validators ∙ h.same_validators;
      same_prevotes = k.same_prevotes ∙ h.same_prevotes;
      same_precommits = k.same_precommits ∙ h.same_precommits;
    };
  }

  send_broadcast-SameVotes :
      (message : Net.ConsensusMessage) → Moves (SameVotes {P = P} {S = S}) (send_broadcast message)
  unfolding send_broadcast
  send_broadcast-SameVotes message = record {
    at = λ e. record {
      same_validators = ground arith;
      same_prevotes = ground arith;
      same_precommits = ground arith;
    };
  }

module _ {P S J K : Type 0} (env : Env P S J K) where
  ask_chain-SameVotes :
      (message : ChainMessage J K) → Moves (SameVotes {P = P} {S = S}) (ask_chain env message)
  unfolding ask_chain
  ask_chain-SameVotes message = record {
    at = λ e. record {
      same_validators = ground arith;
      same_prevotes = ground arith;
      same_precommits = ground arith;
    };
  }

  ruleset same_rules = (moves_rules, SameVotes-preorder, ask_chain-SameVotes)

  get_proposed_block-SameVotes :
      (proposer : Bytes) → Moves (SameVotes {P = P} {S = S}) (get_proposed_block env proposer)
  unfolding get_proposed_block
  get_proposed_block-SameVotes proposer = search same_rules

  finalize_block-SameVotes :
      (block : Block J) → Moves (SameVotes {P = P} {S = S}) (finalize_block env block)
  unfolding finalize_block
  finalize_block-SameVotes block = search same_rules

module _ {P S J K : Type 0} ⦃q : Eq P⦄ (env : Env P S J K) where
  finalize_own-SameVotes : Moves (SameVotes {P = P} {S = S}) (finalize_own env)
  unfolding finalize_own
  finalize_own-SameVotes =
      search (same_rules, get_proposed_block-SameVotes, finalize_block-SameVotes) depth 12

  process_vote-old :
      (kind : VoteType) (sender : P) (vote : Vote) (e : Engine P S)
      → contains (votes_of kind e) sender ≡ true
      → process_vote env kind sender vote e ≡ e
  unfolding process_prevote_vote process_precommit_vote
  process_vote-old prevote sender vote e h = rw (h, process_prevote_vote)
  process_vote-old precommit sender vote e h = rw (h, process_precommit_vote)

  -- What handling a vote leaves: the same validators, and the vote counted.
  record Counted (kind : VoteType) (sender : P) (e f : Engine P S) : Type 0 where
    validators_kept : f.state.validators ≡ e.state.validators
    vote_counted : contains (votes_of kind f) sender ≡ true

  if-Counted :
      (b : Bool) {kind : VoteType} {sender : P} (e x y : Engine P S)
      → (b ≡ true → Counted kind sender e x)
      → (b ≡ false → Counted kind sender e y)
      → Counted kind sender e (if b then x else y)
  if-Counted true e x y h k = h refl
  if-Counted false e x y h k = k refl

  counted_first : (sender : P) (votes : List P) → contains (sender ∷ votes) sender ≡ true
  counted_first sender votes = rw (==_refl sender)

  process_vote-Counted :
      (kind : VoteType) (sender : P) (vote : Vote) (e : Engine P S)
      → Counted kind sender e (process_vote env kind sender vote e)
  unfolding process_prevote_vote process_precommit_vote
  process_vote-Counted prevote sender vote e =
      if-Counted (contains e.state.prevotes sender) e e _
        (λ old. record { validators_kept = refl; vote_counted = old })
        λ new.
          let e' = set_state (λ st. record st { prevotes = sender ∷ st.prevotes }) e in
          let counted = counted_first sender e.state.prevotes in
          let message = Net.vote (vote_now env vote.block_hash precommit e') in
          let same = (send_broadcast-SameVotes message).at e' in
          if-Counted (has_quorum e'.state.prevotes e'.state.validators) e
            (send_broadcast message e').1 e'
            (λ enough. record {
              validators_kept = same.same_validators;
              vote_counted = rw same.same_prevotes counted;
            })
            (λ short. record { validators_kept = refl; vote_counted = counted })
  process_vote-Counted precommit sender vote e =
      if-Counted (contains e.state.precommits sender) e e _
        (λ old. record { validators_kept = refl; vote_counted = old })
        λ new.
          let e' = set_state (λ st. record st { precommits = sender ∷ st.precommits }) e in
          let counted = counted_first sender e.state.precommits in
          let e'' = set_state (λ st. record st { block_finalized = true }) e' in
          let same = finalize_own-SameVotes.at e'' in
          if-Counted
            (has_quorum e'.state.precommits e'.state.validators && not e'.state.block_finalized) e
            (finalize_own env e'').1 e'
            (λ enough. record {
              validators_kept = same.same_validators;
              vote_counted = rw same.same_precommits counted;
            })
            (λ short. record { validators_kept = refl; vote_counted = counted })

  -- A vote that arrives twice has the effect of one: the second time, nothing changes and nothing
  -- is sent.
  pub handle_vote-again :
      (sender : P) (vote : Vote) (e : Engine P S)
      → handle_vote env sender vote (handle_vote env sender vote e) ≡ handle_vote env sender vote e
  unfolding handle_vote
  handle_vote-again sender vote e = elim (Bool-cases (contains e.state.validators sender)) [
    | inr unknown ↦ rw (unknown, handle_vote, unknown, handle_vote)
    | inl known ↦
        let after = process_vote-Counted vote.vote_type sender vote e in
        let still = ap (λ vs. contains vs sender) after.validators_kept ∙ known in
        rw (known, handle_vote, still, handle_vote)
          (process_vote-old vote.vote_type sender vote _ after.vote_counted)
  ]

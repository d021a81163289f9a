-- ===== src/Consensus/Precommits.antt =====
-- consensus_interface.rs: precommits of whatever contents add up to a quorum.
use threshold.Prelude.{
  ℕ, ◌+◌, ◌*◌, ◌≤◌, ◌≡◌, refl, ◌∙◌, arith, Bool, true, false, not, ◌&&◌, List, [], ◌∷◌, Bytes, Eq,
  nat_eq, length, contains, if◌then◌else◌,
}
use threshold.Prelude.Moves.{Preorder, Moves, moves_rules}
use threshold.Protocol.Block.{Block}
use threshold.Abci.Messages.{ChainMessage}
use threshold.Types.Consensus.{Vote, VoteType, prevote, precommit}
use threshold.Consensus.Engine.{
  Env, Engine, set_state, ask_chain, get_proposed_block, finalize_block,
}
use threshold.Consensus.Voting.{
  has_quorum, handle_vote, process_vote, process_precommit_vote, finalize_own, ignoring,
}
use threshold.Consensus.Once.{counting, handle_votes}
use threshold.Consensus.Quorum.{has_quorum_lem}

-- Nothing changes that a precommit is counted with.
abbrev SameCount : {P S : Type 0} → Engine P S → Engine P S → Type 0
SameCount e f =
    (f.state.validators ≡ e.state.validators)
    × (f.state.precommits ≡ e.state.precommits)
    × (f.state.block_finalized ≡ e.state.block_finalized)

module _ {P S J K : Type 0} ⦃q : Eq P⦄ (env : Env P S J K) where
  SameCount-preorder : Preorder (SameCount {P = P} {S = S})
  SameCount-preorder = record {
    stay = λ e. (refl, refl, refl);
    chain = λ d e f h k. (k.0 ∙ h.0, k.1 ∙ h.1, k.2 ∙ h.2);
  }

  ask_chain-SameCount :
      (message : ChainMessage J K) → Moves (SameCount {P = P} {S = S}) (ask_chain env message)
  unfolding ask_chain
  ask_chain-SameCount message = record { at = λ e. ground arith }

  ruleset count_rules = (moves_rules, SameCount-preorder, ask_chain-SameCount)

  get_proposed_block-SameCount :
      (proposer : Bytes) → Moves (SameCount {P = P} {S = S}) (get_proposed_block env proposer)
  unfolding get_proposed_block
  get_proposed_block-SameCount proposer = search count_rules

  finalize_block-SameCount :
      (block : Block J) → Moves (SameCount {P = P} {S = S}) (finalize_block env block)
  unfolding finalize_block
  finalize_block-SameCount block = search count_rules

  height-SameCount :
      (h : ℕ) (e : Engine P S) → SameCount e (set_state (λ st. record st { current_height = h }) e)
  height-SameCount h e = (refl, refl, refl)

  finalize_own-SameCount : Moves (SameCount {P = P} {S = S}) (finalize_own env)
  unfolding finalize_own
  finalize_own-SameCount =
      search (count_rules, get_proposed_block-SameCount, finalize_block-SameCount, height-SameCount)
        depth 12

-- What counting one more precommit does.
record Counted {P S : Type 0} (sender : P) (e f : Engine P S) : Type 0 where
  same_validators : f.state.validators ≡ e.state.validators
  one_more : f.state.precommits ≡ sender ∷ e.state.precommits
  finalized :
      has_quorum (sender ∷ e.state.precommits) e.state.validators ≡ true
      → f.state.block_finalized ≡ true

module _ {P S J K : Type 0} ⦃q : Eq P⦄ (env : Env P S J K) where
  count_or_finalize :
      (b : Bool) (sender : P) (e e' : Engine P S)
      → e'.state.validators ≡ e.state.validators
      → e'.state.precommits ≡ sender ∷ e.state.precommits
      → (b ≡ false
          → has_quorum (sender ∷ e.state.precommits) e.state.validators ≡ true
          → e'.state.block_finalized ≡ true)
      → Counted sender e (
          if b
          then ignoring
              (finalize_own env)
              (set_state (λ st. record st { block_finalized = true }) e')
          else e')
  count_or_finalize true sender e e' v p h =
      let same =
        (finalize_own-SameCount env).at
          (set_state (λ st. record st { block_finalized = true }) e') in
      record { same_validators = same.0 ∙ v; one_more = same.1 ∙ p; finalized = λ enough. same.2 }
  count_or_finalize false sender e e' v p h = record {
    same_validators = v;
    one_more = p;
    finalized = h refl;
  }

  process_precommit_vote-Counted :
      (sender : P) (vote : Vote) (e : Engine P S)
      → contains e.state.precommits sender ≡ false
      → Counted sender e (process_precommit_vote env sender vote e)
  unfolding process_precommit_vote
  process_precommit_vote-Counted sender vote e new =
      let e' = set_state (λ st. record st { precommits = sender ∷ st.precommits }) e in
      rw new (
        count_or_finalize
          (has_quorum e'.state.precommits e'.state.validators && not e'.state.block_finalized)
          sender e e' refl refl (λ short enough. ground arith))

  process_vote-Counted :
      (kind : VoteType) (sender : P) (vote : Vote) (e : Engine P S)
      → kind ≡ precommit
      → contains e.state.precommits sender ≡ false
      → Counted sender e (process_vote env kind sender vote e)
  process_vote-Counted prevote sender vote e h new = absurd (cc)
  process_vote-Counted precommit sender vote e h new =
      process_precommit_vote-Counted sender vote e new

  handle_vote-Counted :
      (sender : P) (vote : Vote) (e : Engine P S)
      → vote.vote_type ≡ precommit
      → contains e.state.validators sender ≡ true
      → contains e.state.precommits sender ≡ false
      → Counted sender e (handle_vote env sender vote e)
  unfolding handle_vote
  handle_vote-Counted sender vote e kind known new =
      rw known (process_vote-Counted vote.vote_type sender vote e kind new)

-- Every vote is the precommit of a validator.
abbrev pub FromValidators : {P : Type 0} ⦃q : Eq P⦄ → List P → List (P × Vote) → Type 0
FromValidators validators [] = Unit
FromValidators validators ((sender, vote) ∷ votes) =
    (vote.vote_type ≡ precommit)
    × (contains validators sender ≡ true)
    × FromValidators validators votes

-- No sender is counted already, or votes twice.
abbrev pub NewSenders : {P : Type 0} ⦃q : Eq P⦄ → List P → List (P × Vote) → Type 0
NewSenders counted [] = Unit
NewSenders counted ((sender, vote) ∷ votes) =
    (contains counted sender ≡ false) × NewSenders (sender ∷ counted) votes

module _ {P S J K : Type 0} ⦃q : Eq P⦄ (env : Env P S J K) where
  counts_on :
      (sender : P) (vote : Vote) (votes : List (P × Vote)) (e : Engine P (S × ℕ))
      → Counted sender e (handle_vote (counting env) sender vote e)
      → 2 * length e.state.validators
        ≤ 3 * (length e.state.precommits + length ((sender, vote) ∷ votes)) + 2
      → FromValidators e.state.validators votes
      → NewSenders (sender ∷ e.state.precommits) votes
      → (handle_votes env votes (handle_vote (counting env) sender vote e)).state.block_finalized
        ≡ true
  unfolding handle_votes
  counts_on sender vote [] e c enough from new =
      c.finalized
        ((has_quorum_lem (sender ∷ e.state.precommits) e.state.validators).1 (omega arith))
  counts_on sender vote ((next, w) ∷ votes) e c enough from new =
      let f = handle_vote (counting env) sender vote e in
      let known : contains f.state.validators next ≡ true = rw c.same_validators from.1 in
      let fresh : contains f.state.precommits next ≡ false = rw c.one_more new.0 in
      counts_on next w votes f (handle_vote-Counted (counting env) next w f from.0 known fresh)
        (rw (c.same_validators, c.one_more) (omega arith)) (rw c.same_validators from.2)
        (rw c.one_more new.1)

  -- Precommits of different validators, for whatever blocks, rounds and heights, add up: once they are a
  -- quorum together with those that the node has counted, of other senders, a block of the round counts as
  -- finalized for the node, whether or not its chain could finalize one. Messages for debugging, which read 8 bytes of a vote's hash, are off.
  pub handle_votes-finalizes :
      (sender : P) (vote : Vote) (votes : List (P × Vote)) (e : Engine P (S × ℕ))
      → FromValidators e.state.validators ((sender, vote) ∷ votes)
      → NewSenders e.state.precommits ((sender, vote) ∷ votes)
      → 2 * length e.state.validators
        ≤ 3 * (length e.state.precommits + length ((sender, vote) ∷ votes)) + 2
      → (handle_votes env ((sender, vote) ∷ votes) e).state.block_finalized ≡ true
  unfolding handle_votes
  handle_votes-finalizes sender vote votes e from new enough =
      counts_on sender vote votes e
        (handle_vote-Counted (counting env) sender vote e from.0 from.1 new.0) enough from.2 new.1

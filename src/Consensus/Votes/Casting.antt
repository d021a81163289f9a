-- ===== src/Consensus/Votes/Casting.antt =====
-- consensus_interface.rs: casting votes and counting those of others.
use threshold.Prelude.{
  ℕ, ◌≡◌, refl, arith, Bool, true, false, ◌∷◌, Bytes, Eq, Ord, nat_eq, contains, Action,
  if◌then◌else◌,
}
use threshold.Prelude.Moves.{Preorder, Moves, Moves-bind, moves_rules}
use threshold.Protocol.Block.{Block}
use threshold.Abci.Messages.{ChainMessage}
use threshold.Types.Consensus as Net
use threshold.Types.Consensus.{Vote, VoteType, prevote, precommit}
use threshold.Consensus.Engine.{
  Env, Engine, set_state, send_broadcast, ask_chain, get_proposed_block, finalize_block,
}
use threshold.Consensus.Voting.{
  process_prevote_vote, process_precommit_vote, finalize_own, handle_vote, process_vote, has_quorum,
}
use threshold.Consensus.Votes.{IsValid, AreVotes-cons}

-- Valid votes stay so.
abbrev pub Keeps : {P S : Type 0} ⦃e : Eq P⦄ → Engine P S → Engine P S → Type 0
Keeps e f = IsValid e.state → IsValid f.state

module _ {P S : Type 0} ⦃q : Eq P⦄ where
  pub Keeps-preorder : Preorder (Keeps {P = P} {S = S})
  Keeps-preorder = record { stay = λ e h. h; chain = λ d e f h k v. k (h v) }

  pub Moves-same :
      {A : Type 0} (m : Action (Engine P S) A)
      → ((e : Engine P S) → (m e).1.state ≡ e.state)
      → Moves Keeps m
  Moves-same m h = record { at = λ e v. rw (h e) v }

  pub if-IsValid :
      (b : Bool) (x y : Engine P S)
      → (b ≡ true → IsValid x.state)
      → (b ≡ false → IsValid y.state)
      → IsValid (if b then x else y).state
  if-IsValid true x y h k = h refl
  if-IsValid false x y h k = k refl

module _ {P S J K : Type 0} ⦃q : Eq P⦄ ⦃o : Ord P⦄ (env : Env P S J K) where
  pub send_broadcast-Keeps :
      (message : Net.ConsensusMessage) → Moves (Keeps {P = P} {S = S}) (send_broadcast message)
  unfolding send_broadcast
  send_broadcast-Keeps message = Moves-same (send_broadcast message) (λ e. ground arith)

  pub ask_chain-Keeps :
      (message : ChainMessage J K) → Moves (Keeps {P = P} {S = S}) (ask_chain env message)
  unfolding ask_chain
  ask_chain-Keeps message = Moves-same (ask_chain env message) (λ e. ground arith)

  pub ruleset keep_rules = (moves_rules, Keeps-preorder, send_broadcast-Keeps, ask_chain-Keeps)

  pub get_proposed_block-Keeps :
      (proposer : Bytes) → Moves (Keeps {P = P} {S = S}) (get_proposed_block env proposer)
  unfolding get_proposed_block
  get_proposed_block-Keeps proposer = search keep_rules

  pub finalize_block-Keeps :
      (block : Block J) → Moves (Keeps {P = P} {S = S}) (finalize_block env block)
  unfolding finalize_block
  finalize_block-Keeps block = search keep_rules

  pub height-Keeps :
      (h : ℕ) (e : Engine P S) → Keeps e (set_state (λ st. record st { current_height = h }) e)
  height-Keeps h e v = v

  pub finalize_own-Keeps : Moves (Keeps {P = P} {S = S}) (finalize_own env)
  unfolding finalize_own
  finalize_own-Keeps =
      search (keep_rules, get_proposed_block-Keeps, finalize_block-Keeps, height-Keeps) depth 12

  pub process_prevote_vote-Keeps :
      (sender : P) (vote : Vote) (e : Engine P S)
      → contains e.state.validators sender ≡ true
      → Keeps e (process_prevote_vote env sender vote e)
  unfolding process_prevote_vote
  process_prevote_vote-Keeps sender vote e known v =
      if-IsValid (contains e.state.prevotes sender) e _ (λ old. v)
        λ new.
          let e' = set_state (λ st. record st { prevotes = sender ∷ st.prevotes }) e in
          let counted : IsValid e'.state = record {
            validators_distinct = v.validators_distinct;
            prevotes_valid = AreVotes-cons sender known new v.prevotes_valid;
            precommits_valid = v.precommits_valid;
          } in
          if-IsValid (has_quorum e'.state.prevotes e'.state.validators) _ e'
            (λ enough. (send_broadcast-Keeps _).at e' counted) (λ short. counted)

  pub process_precommit_vote-Keeps :
      (sender : P) (vote : Vote) (e : Engine P S)
      → contains e.state.validators sender ≡ true
      → Keeps e (process_precommit_vote env sender vote e)
  unfolding process_precommit_vote
  process_precommit_vote-Keeps sender vote e known v =
      if-IsValid (contains e.state.precommits sender) e _ (λ old. v)
        λ new.
          let e' = set_state (λ st. record st { precommits = sender ∷ st.precommits }) e in
          let counted : IsValid e'.state = record {
            validators_distinct = v.validators_distinct;
            prevotes_valid = v.prevotes_valid;
            precommits_valid = AreVotes-cons sender known new v.precommits_valid;
          } in
          if-IsValid _ _ e'
            (λ enough.
              finalize_own-Keeps.at (set_state (λ st. record st { block_finalized = true }) e')
                counted)
            (λ short. counted)

  pub process_vote-Keeps :
      (kind : VoteType) (sender : P) (vote : Vote) (e : Engine P S)
      → contains e.state.validators sender ≡ true
      → Keeps e (process_vote env kind sender vote e)
  process_vote-Keeps prevote sender vote e known = process_prevote_vote-Keeps sender vote e known
  process_vote-Keeps precommit sender vote e known =
      process_precommit_vote-Keeps sender vote e known

  pub handle_vote-Keeps :
      (sender : P) (vote : Vote) (e : Engine P S) → Keeps e (handle_vote env sender vote e)
  unfolding handle_vote
  handle_vote-Keeps sender vote e v =
      if-IsValid (contains e.state.validators sender) _ e
        (λ known. process_vote-Keeps vote.vote_type sender vote e known v) (λ unknown. v)

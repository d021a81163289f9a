-- ===== src/Consensus/Votes/Rounds.antt =====
-- consensus_interface.rs: proposals, new rounds and new validators, and the counted votes.
use threshold.Prelude.{
  ℕ, inl, inr, ◌&&◌, Bool-cases, Option, none, some, Bytes, Eq, Ord, nat_eq, leb, set_insert,
  Result, ok, err, Action, pure,
}
use threshold.Prelude.Moves.{Moves}
use threshold.Protocol.Codec.{Codec}
use threshold.Protocol.Block.{Block}
use threshold.Types.Consensus.{VoteType}
use threshold.Consensus.Engine.{Env, Engine, set_state}
use threshold.Consensus.Starting.{elect, reset_round, start_new_round}
use threshold.Consensus.Voting.{send_vote, check_proposal, handle_block_proposal}
use threshold.Consensus.Handler.{
  follows, enough, handle_new_round, handle_leader_announcement, add_validator,
}
use threshold.Consensus.Votes.{IsValid, AreVotes-nil, AreVotes-insert, Distinct-insert}
use threshold.Consensus.Votes.Casting.{Keeps, keep_rules, if-IsValid, get_proposed_block-Keeps}

module _ {P S J K : Type 0} ⦃q : Eq P⦄ ⦃o : Ord P⦄ (env : Env P S J K) where
  pub send_vote-Keeps :
      (c : Codec J) (block : Block J) (kind : VoteType)
      → Moves (Keeps {P = P} {S = S}) (send_vote c env block kind)
  unfolding send_vote
  send_vote-Keeps c block kind = search keep_rules depth 12

  pub check_proposal-Keeps :
      (c : Codec J) (block : Block J) → Moves (Keeps {P = P} {S = S}) (check_proposal c env block)
  unfolding check_proposal
  check_proposal-Keeps c block =
      search (keep_rules, get_proposed_block-Keeps, send_vote-Keeps) depth 12

  pub handle_block_proposal-Keeps :
      (c : Codec J) (raw_block : Bytes) (e : Engine P S)
      → Keeps e (handle_block_proposal c env raw_block e).1
  unfolding handle_block_proposal
  handle_block_proposal-Keeps c raw_block e = proposal-Keeps (env.deserialize raw_block)
    where
      proposal-Keeps :
          (r : Result (Block J))
          → Keeps e
              ((let m : Action (Engine P S) (Unit {0}) = elim r [
                | ok block ↦ check_proposal c env block
                | err x ↦ pure tt
              ] in
                  m)
                e).1
      proposal-Keeps (ok block) v = (check_proposal-Keeps c block).at e v
      proposal-Keeps (err x) v = v

  pub elect-Keeps : (leader : Option P) → Moves (Keeps {P = P} {S = S}) (elect env leader)
  unfolding elect
  elect-Keeps none = search keep_rules
  elect-Keeps (some p) = search (keep_rules, same_votes) depth 12
    where
      same_votes : (e : Engine P S) → Keeps e e
      same_votes e v = v

  pub reset_round-Keeps : (now : ℕ) (e : Engine P S) → Keeps e (set_state (reset_round now) e)
  unfolding reset_round
  reset_round-Keeps now e v = record {
    validators_distinct = v.validators_distinct;
    prevotes_valid = AreVotes-nil e.state.validators;
    precommits_valid = AreVotes-nil e.state.validators;
  }

  pub start_new_round-Keeps : (now : ℕ) → Moves (Keeps {P = P} {S = S}) (start_new_round env now)
  unfolding start_new_round
  start_new_round-Keeps now = search (keep_rules, elect-Keeps, reset_round-Keeps) depth 12

  pub handle_new_round-Keeps :
      (now : ℕ) (sender : P) (round : ℕ) (e : Engine P S)
      → Keeps e (handle_new_round env now sender round e).1
  unfolding handle_new_round
  handle_new_round-Keeps now sender round e v = elim (Bool-cases (follows sender round e.state)) [
    | inl ahead ↦ rw ahead ((start_new_round-Keeps now).at _ v)
    | inr behind ↦ rw behind v
  ]

  pub handle_leader_announcement-Keeps :
      (now : ℕ) (leader : P) (round : ℕ) (e : Engine P S)
      → Keeps e (handle_leader_announcement now leader round e)
  unfolding handle_leader_announcement
  handle_leader_announcement-Keeps now leader round e v =
      if-IsValid (leb e.state.current_round round) _ e (λ newer. v) (λ older. v)

  pub add_validator-Keeps :
      (now : ℕ) (peer : P) (e : Engine P S) → Keeps e (add_validator env now peer e).1
  unfolding add_validator
  add_validator-Keeps now peer e v =
      let e' = set_state (λ s. record s { validators = set_insert peer s.validators }) e in
      let wider : IsValid e'.state = record {
        validators_distinct = Distinct-insert peer e.state.validators v.validators_distinct;
        prevotes_valid = AreVotes-insert peer v.prevotes_valid;
        precommits_valid = AreVotes-insert peer v.precommits_valid;
      } in
      elim (Bool-cases
        (leb e'.state.current_round 0 && enough e'.max_validators e'.state.validators)) [
          | inl starts ↦ rw starts ((start_new_round-Keeps now).at e' wider)
          | inr waits ↦ rw waits wider
        ]

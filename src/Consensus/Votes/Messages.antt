-- ===== src/Consensus/Votes/Messages.antt =====
-- consensus_interface.rs: `handle_message` and the counted votes.
use threshold.Prelude.{
  ℕ, ◌≡◌, inl, inr, refl, Eq, Ord, nat_eq, Result, ok, err, error, Result-cases,
}
use threshold.Protocol.Codec.{Codec}
use threshold.Consensus.Messages.{ConsensusMessage}
use threshold.Consensus.Engine.{Env, Engine}
use threshold.Consensus.Handler.{triggered, handle_message}
use threshold.Consensus.Votes.{IsValid}
use threshold.Consensus.Votes.Casting.{handle_vote-Keeps}
use threshold.Consensus.Votes.Rounds.{
  handle_block_proposal-Keeps, start_new_round-Keeps, handle_new_round-Keeps,
  handle_leader_announcement-Keeps, add_validator-Keeps,
}

module _ {P S J K : Type 0} ⦃q : Eq P⦄ ⦃o : Ord P⦄ (env : Env P S J K) where
  pub triggered-state : (r : Result (Unit {0}) × Engine P S) → (triggered r).1 ≡ r.1
  triggered-state (ok a, e) = refl
  triggered-state (err (error text), e) = refl

  -- If a node has counted a vote at most once for a validator, and none for anybody else, this is so
  -- after whatever message it handles.
  pub handle_message-IsValid :
      (c : Codec J) (now : ℕ) (message : ConsensusMessage) (e : Engine P S)
      → IsValid e.state
      → IsValid (handle_message c env now message e).1.state
  unfolding handle_message
  handle_message-IsValid c now (ConsensusMessage.start_new_round round) e v =
      (start_new_round-Keeps env now).at e v
  handle_message-IsValid c now (ConsensusMessage.handle_vote sender vote) e v =
      elim (Result-cases (env.from_bytes sender)) [
        | inl (peer, read) ↦ rw (read, handle_message) (handle_vote-Keeps env peer vote e v)
        | inr (x, failed) ↦ rw (failed, handle_message) v
      ]
  handle_message-IsValid c now (ConsensusMessage.handle_new_round sender round) e v =
      elim (Result-cases (env.from_bytes sender)) [
        | inl (peer, read) ↦
            rw (read, handle_message) (handle_new_round-Keeps env now peer round e v)
        | inr (x, failed) ↦ rw (failed, handle_message) v
      ]
  handle_message-IsValid c now (ConsensusMessage.handle_leader_announcement sender leader round) e
        v =
      elim (Result-cases (env.from_bytes sender)) [
        | inl (peer, read) ↦ elim (Result-cases (env.from_bytes leader)) [
          | inl (leader_id, known) ↦
              rw (read, known, handle_message)
                (handle_leader_announcement-Keeps env now leader_id round e v)
          | inr (x, failed) ↦ rw (read, failed, handle_message) v
        ]
        | inr (x, failed) ↦ rw (failed, handle_message) v
      ]
  handle_message-IsValid c now (ConsensusMessage.handle_block_proposal sender raw_block) e v =
      elim (Result-cases (env.from_bytes sender)) [
        | inl (peer, read) ↦
            rw (read, handle_message) (handle_block_proposal-Keeps env c raw_block e v)
        | inr (x, failed) ↦ rw (failed, handle_message) v
      ]
  handle_message-IsValid c now (ConsensusMessage.trigger_consensus_round force_round) e v =
      rw triggered-state ((start_new_round-Keeps env now).at e v)
  handle_message-IsValid c now (ConsensusMessage.set_leader is_leader) e v = v
  handle_message-IsValid c now (ConsensusMessage.add_validator peer_id) e v =
      elim (Result-cases (env.from_bytes peer_id)) [
        | inl (peer, read) ↦ rw (read, handle_message) (add_validator-Keeps env now peer e v)
        | inr (x, failed) ↦ rw (failed, handle_message) v
      ]
  handle_message-IsValid c now ConsensusMessage.get_consensus_state e v = v

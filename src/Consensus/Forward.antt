-- ===== src/Consensus/Forward.antt =====
-- consensus_interface.rs: the rounds of a node over the messages that it handles.
use threshold.Prelude.{
  ℕ, ◌+◌, ◌-◌, ◌≤◌, ◌<◌, ◌≡◌, refl, arith, inl, inr, true, ◌&&◌, Bool-cases, Option, Eq, Ord, leb,
  set_insert, add32, u32_mod, Result-cases, modify, ◌>>◌,
}
use threshold.Prelude.Moves.{Moves}
use threshold.Protocol.Codec.{Codec}
use threshold.Consensus.State.{ConsensusState, select_leader}
use threshold.Consensus.Messages.{ConsensusMessage}
use threshold.Consensus.Engine.{Env, Engine, set_state}
use threshold.Consensus.Starting.{elect, reset_round, start_new_round}
use threshold.Consensus.Handler.{
  follows, enough, handle_new_round, handle_leader_announcement, add_validator, handle_message,
}
use threshold.Consensus.Votes.Messages.{triggered-state}
use threshold.Consensus.Announcements.{SameRound, round_rules, elect-SameRound}
use threshold.Consensus.SameRound.{handle_vote-SameRound, handle_block_proposal-SameRound}

-- The round that a message names, where the node takes it over.
abbrev pub round_named : ConsensusMessage → ℕ
round_named (ConsensusMessage.handle_new_round sender round) = round
round_named _ = 0

module _ {P S J K : Type 0} ⦃q : Eq P⦄ ⦃o : Ord P⦄ (env : Env P S J K) where
  reset_round-SameRound : (now : ℕ) (e : Engine P S) → SameRound e (set_state (reset_round now) e)
  unfolding reset_round
  reset_round-SameRound now e = refl

  -- the part of `start_new_round` after the count
  begin-SameRound :
      (now : ℕ) (leader : Option P)
      → Moves (SameRound {P = P} {S = S}) (elect env leader >> modify (set_state (reset_round now)))
  begin-SameRound now leader = search (round_rules, elect-SameRound, reset_round-SameRound) depth 12

  start_new_round-round :
      (now : ℕ) (e : Engine P S)
      → (start_new_round env now e).1.state.current_round ≡ add32 e.state.current_round 1
  unfolding start_new_round
  start_new_round-round now e =
      let e' = set_state (λ st. record st { current_round = add32 st.current_round 1 }) e in
      (begin-SameRound now (select_leader e'.state e'.state.current_round)).at e'

  follows-ahead :
      (sender : P) (round : ℕ) (s : ConsensusState P)
      → follows sender round s ≡ true
      → s.current_round < round
  follows-ahead sender round s h = ground arith

  handle_new_round-forward :
      (now : ℕ) (sender : P) (round : ℕ) (e : Engine P S)
      → round < u32_mod
      → e.state.current_round ≤ (handle_new_round env now sender round e).1.state.current_round
  unfolding handle_new_round
  handle_new_round-forward now sender round e h = elim (Bool-cases (follows sender round e.state)) [
    | inl ahead ↦ rw ahead (
        omega (
          arith,
          follows-ahead sender round e.state ahead,
          start_new_round-round now (set_state (λ s. record s { current_round = round - 1 }) e),
        ))
    | inr behind ↦ rw behind (omega arith)
  ]

  handle_leader_announcement-forward :
      (now : ℕ) (leader : P) (round : ℕ) (e : Engine P S)
      → e.state.current_round ≤ (handle_leader_announcement now leader round e).state.current_round
  unfolding handle_leader_announcement
  handle_leader_announcement-forward now leader round e = ground arith

  add_validator-forward :
      (now : ℕ) (peer : P) (e : Engine P S)
      → e.state.current_round ≤ (add_validator env now peer e).1.state.current_round
  unfolding add_validator
  add_validator-forward now peer e =
      let e' = set_state (λ s. record s { validators = set_insert peer s.validators }) e in
      elim (Bool-cases
        (leb e'.state.current_round 0 && enough e'.max_validators e'.state.validators)) [
          | inl starts ↦ rw starts (ground (arith, start_new_round-round now e'))
          | inr waits ↦ rw waits (omega arith)
        ]

  -- No message takes a node back to an earlier round, as long as its round is not the last u32.
  -- The round that the message names is a u32.
  pub handle_message-forward :
      (c : Codec J) (now : ℕ) (message : ConsensusMessage) (e : Engine P S)
      → round_named message < u32_mod
      → e.state.current_round + 1 < u32_mod
      → e.state.current_round ≤ (handle_message c env now message e).1.state.current_round
  unfolding handle_message
  handle_message-forward c now (ConsensusMessage.start_new_round round) e h k =
      omega (arith, start_new_round-round now e)
  handle_message-forward c now (ConsensusMessage.handle_vote sender vote) e h k =
      elim (Result-cases (env.from_bytes sender)) [
        | inl (peer, read) ↦
            rw (read, handle_message) (omega (arith, handle_vote-SameRound env peer vote e))
        | inr (x, failed) ↦ rw (failed, handle_message) (omega arith)
      ]
  handle_message-forward c now (ConsensusMessage.handle_new_round sender round) e h k =
      elim (Result-cases (env.from_bytes sender)) [
        | inl (peer, read) ↦ rw (read, handle_message) (handle_new_round-forward now peer round e h)
        | inr (x, failed) ↦ rw (failed, handle_message) (omega arith)
      ]
  handle_message-forward c now (ConsensusMessage.handle_leader_announcement sender leader round) e h
        k =
      elim (Result-cases (env.from_bytes sender)) [
        | inl (peer, read) ↦ elim (Result-cases (env.from_bytes leader)) [
          | inl (leader_id, known) ↦
              rw (read, known, handle_message)
                (handle_leader_announcement-forward now leader_id round e)
          | inr (x, failed) ↦ rw (read, failed, handle_message) (omega arith)
        ]
        | inr (x, failed) ↦ rw (failed, handle_message) (omega arith)
      ]
  handle_message-forward c now (ConsensusMessage.handle_block_proposal sender raw_block) e h k =
      elim (Result-cases (env.from_bytes sender)) [
        | inl (peer, read) ↦
            rw (read, handle_message)
              (omega (arith, handle_block_proposal-SameRound env c raw_block e))
        | inr (x, failed) ↦ rw (failed, handle_message) (omega arith)
      ]
  handle_message-forward c now (ConsensusMessage.trigger_consensus_round force_round) e h k =
      rw (triggered-state env) (omega (arith, start_new_round-round now e))
  handle_message-forward c now (ConsensusMessage.set_leader is_leader) e h k = omega arith
  handle_message-forward c now (ConsensusMessage.add_validator peer_id) e h k =
      elim (Result-cases (env.from_bytes peer_id)) [
        | inl (peer, read) ↦ rw (read, handle_message) (add_validator-forward now peer e)
        | inr (x, failed) ↦ rw (failed, handle_message) (omega arith)
      ]
  handle_message-forward c now ConsensusMessage.get_consensus_state e h k = omega arith

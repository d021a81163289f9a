-- ===== src/Consensus/Handler.antt =====
-- consensus_interface.rs: `handle_message`, and the timer of main_loop.rs.
use Prim.Native.String
use threshold.Prelude.{
  ℕ, ◌-◌, Bool, true, false, ◌&&◌, Option, none, some, List, String, Eq, Ord, ◌==◌, leb, ltb,
  NodeError, error, Result, ok, err, length, set_insert, if◌then◌else◌, nat_eq, Action, pure, gets,
  ◌>>=◌, ◌>>◌,
}
use threshold.Protocol.Codec.{Codec}
use threshold.Consensus.State.{ConsensusState, waiting_for_propose}
use threshold.Consensus.Messages.{ConsensusMessage, ConsensusResponse}
use threshold.Consensus.Engine.{Env, Engine, set_state}
use threshold.Consensus.Starting.{is_peer, start_new_round, propose_block_as_leader}
use threshold.Consensus.Voting.{handle_vote, handle_block_proposal, ignoring}

-- `e.to_string()` of an error, and the error's text in an answer
abbrev pub error_text : Result (Unit {0}) → Option String
error_text (ok a) = none
error_text (err (error text)) = some text

abbrev pub bad_peer : String → NodeError → Option String
bad_peer message (error text) = some (String.◌++◌ message text)

abbrev pub answer :
    {P S : Type 0}
    → (Option String → ConsensusResponse)
    → Result (Unit {0}) × Engine P S
    → ConsensusResponse × Engine P S
answer response (r, e) = (response (error_text r), e)

abbrev pub triggered :
    {P S : Type 0} → Result (Unit {0}) × Engine P S → ConsensusResponse × Engine P S
triggered (ok a, e) = (
  ConsensusResponse.trigger_consensus_round true "Consensus round triggered" e.state.current_round,
  e,
)
triggered (err (error text), e) = (
  ConsensusResponse.trigger_consensus_round false
      (String.◌++◌ "Failed to trigger consensus round: " text) e.state.current_round,
  e,
)

-- A NewRound message counts if it is ahead of this node, and comes from the leader that the node
-- knows; a node that knows none follows it only before its first round.
abbrev pub follows : {P : Type 0} ⦃q : Eq P⦄ → P → ℕ → ConsensusState P → Bool
follows sender round s =
    if leb round s.current_round
    then false
    else elim s.proposer [ none ↦ leb s.current_round 0 | some expected ↦ expected == sender ]

unfoldable pub handle_leader_announcement :
    {P S : Type 0} ⦃q : Eq P⦄ → (now : ℕ) → P → ℕ → Engine P S → Engine P S
handle_leader_announcement now leader round e =
    if leb e.state.current_round round
    then set_state
        (λ s. record s {
          current_round = round;
          proposer = some leader;
          is_leader = is_peer e.peer_id leader;
          current_state = waiting_for_propose;
          round_start_time = some now;
        })
        e
    else e

-- There are as many validators as are expected, if a number is expected.
abbrev pub enough : {P : Type 0} → Option ℕ → List P → Bool
enough none validators = false
enough (some max_validators) validators = leb max_validators (length validators)

module _ {P S J K : Type 0} ⦃q : Eq P⦄ ⦃o : Ord P⦄ (env : Env P S J K) where
  unfoldable pub handle_new_round : (now : ℕ) → P → ℕ → Action (Engine P S) (Unit {0})
  unfolding start_new_round
  handle_new_round now sender round e =
      if follows sender round e.state
      then start_new_round env now (set_state (λ s. record s { current_round = round - 1 }) e)
      else (ok tt, e)

  -- The node that completes the set of validators before the first round starts it.
  unfoldable pub add_validator : (now : ℕ) → P → Action (Engine P S) (Unit {0})
  unfolding start_new_round
  add_validator now peer e =
      let e' = set_state (λ s. record s { validators = set_insert peer s.validators }) e in
      if leb e'.state.current_round 0 && enough e'.max_validators e'.state.validators
      then start_new_round env now e'
      else (ok tt, e')

module _ {P S J K : Type 0} ⦃q : Eq P⦄ ⦃o : Ord P⦄ (c : Codec J) (env : Env P S J K) where
  unfoldable pub handle_message :
      (now : ℕ) → ConsensusMessage → Engine P S → ConsensusResponse × Engine P S
  unfolding handle_new_round handle_leader_announcement add_validator start_new_round handle_vote
      handle_block_proposal
  handle_message now (ConsensusMessage.start_new_round round) e =
      answer ConsensusResponse.start_new_round (start_new_round env now e)
  handle_message now (ConsensusMessage.handle_vote sender vote) e = elim (env.from_bytes sender) [
    | ok peer ↦ (ConsensusResponse.handle_vote none, handle_vote env peer vote e)
    | err x ↦ (ConsensusResponse.handle_vote (bad_peer "Failed to decode sender peer ID: " x), e)
  ]
  handle_message now (ConsensusMessage.handle_new_round sender round) e =
      elim (env.from_bytes sender) [
        | ok peer ↦
            answer ConsensusResponse.handle_new_round (handle_new_round env now peer round e)
        | err x ↦
            (ConsensusResponse.handle_new_round (bad_peer "Failed to decode sender peer ID: " x), e)
      ]
  handle_message now (ConsensusMessage.handle_leader_announcement sender leader round) e =
      elim (env.from_bytes sender) [
        | err x ↦ (
          ConsensusResponse.handle_leader_announcement (bad_peer "Failed to decode peer ID: " x),
          e,
        )
        | ok sender_id ↦ elim (env.from_bytes leader) [
          | err x ↦ (
            ConsensusResponse.handle_leader_announcement (bad_peer "Failed to decode peer ID: " x),
            e,
          )
          | ok leader_id ↦ (
            ConsensusResponse.handle_leader_announcement none,
            handle_leader_announcement now leader_id round e,
          )
        ]
      ]
  handle_message now (ConsensusMessage.handle_block_proposal sender raw_block) e =
      elim (env.from_bytes sender) [
        | ok peer ↦
            answer ConsensusResponse.handle_block_proposal (handle_block_proposal c env raw_block e)
        | err x ↦ (
          ConsensusResponse.handle_block_proposal (bad_peer "Failed to decode sender peer ID: " x),
          e,
        )
      ]
  handle_message now (ConsensusMessage.trigger_consensus_round force_round) e =
      triggered (start_new_round env now e)
  handle_message now (ConsensusMessage.set_leader is_leader) e =
      (ConsensusResponse.set_leader none, set_state (λ s. record s { is_leader = is_leader }) e)
  handle_message now (ConsensusMessage.add_validator peer_id) e = elim (env.from_bytes peer_id) [
    | ok peer ↦ answer ConsensusResponse.add_validator (add_validator env now peer e)
    | err x ↦ (ConsensusResponse.add_validator (bad_peer "Failed to decode peer ID: " x), e)
  ]
  handle_message now ConsensusMessage.get_consensus_state e = (
    ConsensusResponse.get_consensus_state (record {
      phase = e.state.current_state;
      round = e.state.current_round;
      height = e.state.current_height;
      is_leader = e.state.is_leader;
      validators_count = length e.state.validators;
      prevotes_count = length e.state.prevotes;
      precommits_count = length e.state.precommits;
    }),
    e,
  )

module _ {P S J K : Type 0} ⦃q : Eq P⦄ ⦃o : Ord P⦄ (env : Env P S J K) where
  -- main_loop.rs: `trigger_new_round`, every ten seconds
  unfoldable pub trigger_new_round : (now : ℕ) → Action (Engine P S) (Unit {0})
  unfolding start_new_round propose_block_as_leader
  trigger_new_round now = do
    active ← gets (λ e. leb 2 (length e.state.validators) && ltb 0 e.state.current_round)
    if active
        then (do
          start_new_round env now
          leads ← gets (λ e. e.state.is_leader)
          if leads then (λ e. (ok tt, ignoring (propose_block_as_leader env) e)) else pure tt)
        else pure tt

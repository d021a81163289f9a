-- ===== src/Consensus/Engine.antt =====
-- crates/consensus/src/consensus_interface.rs: `ConsensusInterfaceImpl`. Logging and metrics are left
-- out; the clock's reading is an argument.
use Prim.Native.String
use threshold.Prelude.{
  ℕ, Option, none, some, List, [], ◌∷◌, ◌++◌, Bytes, ◌==◌, nat_eq, error, Result, ok, err, Action,
  lift, ◌>>=◌, if◌then◌else◌,
}
use threshold.Protocol.Block.{Block}
use threshold.Abci.Messages.{ChainMessage, ChainResponse}
use threshold.Types.Consensus.{LeaderAnnouncement, Vote, VoteType, prevote, precommit}
use threshold.Types.Consensus as Net
use threshold.Consensus.State.{ConsensusState}

-- What lies outside: the bytes of a `PeerId`, bincode's form of a block, and the chain interface
-- behind its message channel, whose state is `S`.
pub record Env (P S J K : Type 0) : Type 0 where
  pub to_bytes : P → Bytes
  pub from_bytes : Bytes → Result P
  pub serialize : Block J → Result Bytes
  pub deserialize : Bytes → Result (Block J)
  pub ask : ChainMessage J K → Action S (ChainResponse J)

-- A tokio broadcast channel: sending fails when nobody is subscribed.
pub record Channel : Type 0 where
  pub receivers : ℕ
  pub sent : List Net.ConsensusMessage

-- `ConsensusInterfaceImpl`, less its message stream.
pub record Engine (P S : Type 0) : Type 0 where
  pub state : ConsensusState P
  pub network_events_tx : Option Channel
  pub chain_interface_tx : Option S
  pub peer_id : Option P
  pub max_validators : Option ℕ

module _ {P S : Type 0} where
  abbrev pub set_state : (ConsensusState P → ConsensusState P) → Engine P S → Engine P S
  set_state f e = record e { state = f e.state }

  abbrev pub send_on : Option Channel → Net.ConsensusMessage → Action (Engine P S) (Unit {0})
  send_on none message e = (ok tt, e)
  send_on (some channel) message e =
      if channel.receivers == 0 then (err (error "Failed to send network event"), e) else (
        ok tt,
        record e {
          network_events_tx = some (record channel { sent = channel.sent ++ message ∷ [] });
        },
      )

  -- `send_broadcast(BroadcastMessage::Consensus(…))`
  unfoldable pub send_broadcast : Net.ConsensusMessage → Action (Engine P S) (Unit {0})
  send_broadcast message e = send_on e.network_events_tx message e

module _ {P S J K : Type 0} (env : Env P S J K) where
  -- `.map(PeerId::to_bytes).unwrap_or_default()`
  abbrev pub peer_bytes : Option P → Bytes
  peer_bytes none = []
  peer_bytes (some p) = env.to_bytes p

  abbrev pub ask_on : Option S → ChainMessage J K → Action (Engine P S) (ChainResponse J)
  ask_on none message e = (err (error "Chain interface not available"), e)
  ask_on (some s) message e =
      let (r, s') = env.ask message s in (r, record e { chain_interface_tx = some s' })

  -- `chain_tx.send_message_with_response`, where there is a chain interface
  unfoldable pub ask_chain : ChainMessage J K → Action (Engine P S) (ChainResponse J)
  ask_chain message e = ask_on e.chain_interface_tx message e

  abbrev pub proposed_block_of : ChainResponse J → Result (Block J)
  proposed_block_of (ChainResponse.get_proposed_block block) = ok block
  proposed_block_of _ = err (error "Unexpected response from chain interface")

  unfoldable pub get_proposed_block : Bytes → Action (Engine P S) (Block J)
  unfolding ask_chain
  get_proposed_block proposer = do
    response ← ask_chain (ChainMessage.get_proposed_block none proposer)
    lift (proposed_block_of response)

  abbrev pub finalized_of : ChainResponse J → Result (Unit {0})
  finalized_of (ChainResponse.finalize_and_store_block none) = ok tt
  finalized_of (ChainResponse.finalize_and_store_block (some (error text))) =
      err (error (String.◌++◌ "Failed to finalize block: " text))
  finalized_of _ = err (error "Unexpected response from chain interface")

  unfoldable pub finalize_block : Block J → Action (Engine P S) (Unit {0})
  unfolding ask_chain
  finalize_block block = do
    response ← ask_chain (ChainMessage.finalize_block block)
    lift (finalized_of response)

  -- `initialize_from_chain_state`: only an answer of another kind is an error.
  abbrev pub initialize_with : Option S → Action (Engine P S) (Unit {0})
  initialize_with none e = (ok tt, e)
  initialize_with (some s) e =
      let (r, s') = env.ask ChainMessage.get_chain_info s in
      let e' = record e { chain_interface_tx = some s' } in
      elim r [
        | ok (ChainResponse.get_chain_info height pending_transactions) ↦
            (ok tt, set_state (λ st. record st { current_height = height; current_round = 0 }) e')
        | ok _ ↦ (err (error "Unexpected response from chain interface for GetChainInfo"), e')
        | err x ↦ (ok tt, e')
      ]

  unfoldable pub initialize_from_chain_state : Action (Engine P S) (Unit {0})
  initialize_from_chain_state e = initialize_with e.chain_interface_tx e

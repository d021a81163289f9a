-- ===== src/Node/ConsensusHandler.antt =====
-- crates/node/src/handlers/consensus/handler.rs: what a node hears of the network goes to its consensus.
-- The fields of the handler's `ConsensusState` are never read.
use threshold.Prelude.{false, Option, none, some, Bytes, Action, pure, lift, ◌>>=◌}
use threshold.Types.Consensus
use threshold.Types.Network.{World, Broadcast, SelfRequest, SelfResponse, NetworkEvent}
use threshold.Types.Broadcast.{BroadcastMessage, decode_broadcast}
use threshold.Consensus.Messages.{ConsensusMessage, ConsensusResponse}
use threshold.Node.{Services, At, call, answer, logged}

-- The answer to a request for a round.
abbrev pub round_response : ConsensusResponse → SelfResponse
round_response (ConsensusResponse.trigger_consensus_round success message round_number) =
    SelfResponse.trigger_consensus_round success message round_number
round_response _ =
    SelfResponse.trigger_consensus_round false "Unexpected response from consensus interface" 0

-- What the consensus is told of another node's message. The sender of a proposal is whom the message
-- names as the proposer, not the peer that sent it.
unfoldable pub told : Bytes → Consensus.ConsensusMessage → ConsensusMessage
told peer (Consensus.ConsensusMessage.leader_announcement announcement) =
    ConsensusMessage.handle_leader_announcement peer announcement.leader announcement.round
told peer (Consensus.ConsensusMessage.new_round round) =
    ConsensusMessage.handle_new_round peer round
told peer (Consensus.ConsensusMessage.vote vote) = ConsensusMessage.handle_vote peer vote
told peer (Consensus.ConsensusMessage.block_proposal proposer raw_block) =
    ConsensusMessage.handle_block_proposal proposer raw_block

module _ {w : World} (sv : Services w) where
  -- Neither the answer nor a failure is looked at.
  abbrev pub tell : ConsensusMessage → Action (At (Unit {0}) w) (Unit {0})
  tell message = logged (call (sv.ask_consensus message))

  abbrev pub handle_broadcast : w.PeerId → Broadcast w → Action (At (Unit {0}) w) (Unit {0})
  handle_broadcast peer (BroadcastMessage.consensus message) =
      tell (told (sv.peer_bytes peer) message)
  handle_broadcast peer (BroadcastMessage.block raw_block) =
      tell (ConsensusMessage.handle_block_proposal (sv.peer_bytes peer) raw_block)
  handle_broadcast peer _ = pure tt

  -- A message with no source is not even decoded.
  abbrev pub handle_gossip : Option w.PeerId → Bytes → Action (At (Unit {0}) w) (Unit {0})
  handle_gossip none payload = pure tt
  handle_gossip (some peer) payload = do
    broadcast ← lift (decode_broadcast sv.prost payload)
    handle_broadcast peer broadcast

  unfoldable pub handle : NetworkEvent w → Action (At (Unit {0}) w) (Unit {0})
  unfolding told
  handle (NetworkEvent.self_request (SelfRequest.trigger_consensus_round force_round) channel) = do
    response ← call (sv.ask_consensus (ConsensusMessage.trigger_consensus_round force_round))
    answer sv channel (round_response response)
  handle (NetworkEvent.subscribed peer_id topic) =
      tell (ConsensusMessage.add_validator (sv.peer_bytes peer_id))
  handle (NetworkEvent.gossipsub_message message) = handle_gossip message.source message.payload
  handle _ = pure tt

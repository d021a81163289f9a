-- ===== src/Types/Network.antt =====
-- crates/types/src/network/network_event.rs and intents.rs: the events that the handlers of a node
-- take, the requests of the node's own parts, and the messages of one node to another.
use threshold.Prelude.{ℕ, Bool, Option, List, Bytes, Text, String, NodeError}
use threshold.Abci.ChainState.{DepositIntent}
use threshold.Types.Broadcast.{BroadcastMessage}
use threshold.Wallet.Spend.{BitcoinTransaction}

-- The types of other crates that the events carry, and that of the node's surroundings.
pub record World : Type 1 where
  -- libp2p
  pub PeerId : Type 0
  pub Multiaddr : Type 0
  pub TopicHash : Type 0
  -- prost: `p2p_proto::GossipsubMessage`
  pub Gossip : Type 0
  -- frost: `dkg::round2::Package`, `keys::PublicKeyPackage` and `keys::KeyPackage`
  pub Round2Package : Type 0
  pub PublicKeyPackage : Type 0
  pub KeyPackage : Type 0
  -- frost: the other secrets and packages of `keys::dkg`
  pub Round1Package : Type 0
  pub Round1Secret : Type 0
  pub Round2Secret : Type 0
  -- frost: `Identifier`, and the secrets and messages of a signature
  pub Identifier : Type 0
  pub SigningNonces : Type 0
  pub SigningCommitments : Type 0
  pub SigningPackage : Type 0
  pub SignatureShare : Type 0
  pub Signature : Type 0
  -- serde_json: `Value`
  pub Json : Type 0
  -- bitcoin: `Address`
  pub Address : Type 0
  -- tokio: `mpsc::UnboundedSender<SelfResponse>`
  pub Sender : Type 0
  -- `f64`, for the fee per virtual byte
  pub Rate : Type 0
  -- what implements the trait `Wallet`
  pub Purse : Type 0
  -- the chain, the consensus, the network and the oracle, behind their channels
  pub Outside : Type 0

pub record BlockInfo : Type 0 where
  pub height : ℕ
  pub hash : Text
  pub timestamp : ℕ
  pub transaction_count : ℕ

pub record WithdrawlIntent : Type 0 where
  pub amount_sat : ℕ
  pub address_to : Text
  pub public_key : Text
  pub blocks_to_confirm : Option ℕ

-- `DirectMessage`, for a type `R` of round-2 packages.
pub data DirectMessage (R : Type 0) : Type 0 where
  ping : (message : Text) → DirectMessage R
  round2_package : R → DirectMessage R
  sign_request : (sign_id : ℕ) (message : Bytes) → DirectMessage R
  sign_package : (sign_id : ℕ) (signing_package : Bytes) → DirectMessage R
  pong : DirectMessage R
  commitments : (sign_id : ℕ) (commitments : Bytes) → DirectMessage R
  signature_share : (sign_id : ℕ) (signature_share : Bytes) → DirectMessage R

pub data SelfRequest : Type 0 where
  create_deposit : (user_pubkey : Text) (amount_sat : ℕ) → SelfRequest
  get_pending_deposit_intents : SelfRequest
  start_signing_session : (hex_message : Text) → SelfRequest
  spend : (amount_sat fee : ℕ) (address_to user_pubkey : Text) → SelfRequest
  propose_withdrawal : WithdrawlIntent → SelfRequest
  confirm_withdrawal : (challenge signature : Text) → SelfRequest
  check_balance : (address : Text) → SelfRequest
  confirm_deposit : (confirmed_tx : BitcoinTransaction) → SelfRequest
  get_chain_info : SelfRequest
  trigger_consensus_round : (force_round : Bool) → SelfRequest
  get_latest_blocks : (count : ℕ) → SelfRequest
  tick : SelfRequest

pub data SelfResponse : Type 0 where
  get_frost_public_key : Option Text → SelfResponse
  create_deposit : (deposit_tracking_id deposit_address : Text) → SelfResponse
  get_pending_deposit_intents : List DepositIntent → SelfResponse
  start_signing_session : (sign_id : ℕ) → SelfResponse
  spend_request_sent : (sighash : Text) → SelfResponse
  propose_withdrawal : (quote_satoshis : ℕ) (challenge : Text) → SelfResponse
  confirm_withdrawal : (success : Bool) → SelfResponse
  check_balance : (balance_satoshis : ℕ) → SelfResponse
  node_error : NodeError → SelfResponse
  get_chain_info :
      (latest_height : ℕ) (latest_block_hash : Text) (pending_transactions : ℕ) → SelfResponse
  trigger_consensus_round : (success : Bool) (message : String) (round_number : ℕ) → SelfResponse
  get_latest_blocks : List BlockInfo → SelfResponse

module _ (w : World) where
  abbrev pub Broadcast : Type 0
  Broadcast = BroadcastMessage BitcoinTransaction w.Gossip

  -- `gossipsub::Message`, less its topic and sequence number, which are not read.
  pub record Message : Type 0 where
    pub source : Option w.PeerId
    pub payload : Bytes

  pub data NetworkEvent : Type 0 where
    self_request : SelfRequest → (response_channel : Option w.Sender) → NetworkEvent
    subscribed : (peer_id : w.PeerId) (topic : w.TopicHash) → NetworkEvent
    gossipsub_message : Message → NetworkEvent
    message_event : w.PeerId → DirectMessage w.Round2Package → NetworkEvent
    peers_connected : List (w.PeerId × w.Multiaddr) → NetworkEvent
    peers_disconnected : List (w.PeerId × w.Multiaddr) → NetworkEvent
    send_broadcast : Broadcast → NetworkEvent
    unknown : NetworkEvent

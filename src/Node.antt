-- ===== src/Node.antt =====
-- crates/node/src/lib.rs: `NodeState`, what it reaches over channels, and what an action on a part does
-- to the whole. Its handlers are apart: the loop of Node/MainLoop takes them out while they run.
pub mod MainLoop
pub mod Balance
pub mod ConsensusHandler
pub mod Signing
pub mod Dkg
pub mod Withdrawal
pub mod Handlers
pub mod Tests
pub mod Deposit
use threshold.Prelude.{
  ℕ, Bool, Option, none, some, List, Bytes, Text, Result, ok, err, Action, NodeError, error, pure,
  modify,
}
use threshold.Protocol.Transaction.{Metadata}
use threshold.Abci.ChainState.{DepositIntent}
use threshold.Abci.Messages.{ChainMessage, ChainResponse}
use threshold.Consensus.Messages.{ConsensusMessage, ConsensusResponse}
use threshold.Types.Network.{World, Broadcast, DirectMessage, SelfRequest, SelfResponse}
use threshold.Types.Proto.{Prost}
use threshold.Wallet.Spend.{BitcoinTransaction}

pub record NodeState (w : World) : Type 0 where
  pub peer_id : w.PeerId
  pub peers : List w.PeerId
  pub pubkey_package : Option w.PublicKeyPackage
  pub private_key_package : Option w.KeyPackage
  -- of `NodeConfig`
  pub min_signers : Option ℕ
  pub max_signers : Option ℕ
  pub wallet : w.Purse
  pub outside : w.Outside

-- What a node calls of other crates and of the parts behind its channels. A call may fail, as a channel
-- may be closed.
pub record Services (w : World) : Type 0 where
  -- `send_message_with_response` of the two interfaces
  pub ask_chain : ChainMessage w.Json w.PublicKeyPackage → Action w.Outside (ChainResponse w.Json)
  pub ask_consensus : ConsensusMessage → Action w.Outside ConsensusResponse
  -- the trait `Network`
  pub send_broadcast : Broadcast w → Action w.Outside (Unit {0})
  pub send_private_message : w.PeerId → DirectMessage w.Round2Package → Action w.Outside (Unit {0})
  pub send_self_request : SelfRequest → (sync : Bool) → Action w.Outside (Unit {0})
  -- `response_channel.send`
  pub respond : w.Sender → SelfResponse → Action w.Outside (Unit {0})
  -- `deposit_intent_tx.send`
  pub notify_deposit : DepositIntent → Action w.Outside (Unit {0})
  -- the trait `Oracle`
  pub get_current_fee_per_vb : Option ℕ → Action w.Outside w.Rate
  pub broadcast_transaction : BitcoinTransaction → Action w.Outside (Unit {0})
  -- the trait `Wallet`
  pub create_spend :
      (amount_sat estimated_fee_sat : ℕ)
      → w.Address
      → (dry_run : Bool) → Action w.Purse (BitcoinTransaction × Bytes)
  pub ingest_external_tx : BitcoinTransaction → Action w.Purse (Unit {0})
  pub add_address : w.Address → w.Purse → w.Purse
  -- `(rate * size).round().to_u64().unwrap()`, for a size in virtual bytes; the panic of a product that is
  -- no u64 is an error here
  pub fee_of : w.Rate → (size : ℕ) → Result ℕ
  -- bitcoin: addresses as texts and from scripts on the test network, sizes and ids of transactions
  pub parse_address : Text → Result w.Address
  pub testnet_address : Bytes → Option Text
  pub vsize : BitcoinTransaction → ℕ
  pub compute_txid : BitcoinTransaction → Bytes
  pub metadata : Metadata BitcoinTransaction w.Json
  pub prost : Prost BitcoinTransaction w.Gossip
  -- hex: `encode`
  pub hex_encode : Bytes → Text
  -- `peer_id_to_identifier`, which panics where frost derives no identifier
  pub peer_identifier : w.PeerId → w.Identifier
  -- libp2p: `PeerId::to_bytes`
  pub peer_bytes : w.PeerId → Bytes

-- A handler's state beside the node's.
pub record At (H : Type 0) (w : World) : Type 0 where
  pub own : H
  pub node : NodeState w

module _ {H A : Type 0} {w : World} where
  abbrev pub on_own : Action H A → Action (At H w) A
  on_own m s = let (r, h) = m s.own in (r, record s { own = h })

  abbrev pub on_node : Action (NodeState w) A → Action (At H w) A
  on_node m s = let (r, n) = m s.node in (r, record s { node = n })

  abbrev pub call : Action w.Outside A → Action (At H w) A
  call m s = let (r, o) = m s.node.outside in (r, record s { node = record s.node { outside = o } })

  -- A call that cannot fail, of a source of randomness.
  abbrev pub draw : (w.Outside → A × w.Outside) → Action (At H w) A
  draw f s =
      let (a, o) = f s.node.outside in (ok a, record s { node = record s.node { outside = o } })

  abbrev pub on_wallet : Action w.Purse A → Action (At H w) A
  on_wallet m s =
      let (r, p) = m s.node.wallet in (r, record s { node = record s.node { wallet = p } })

-- A call whose failure is only logged.
abbrev pub logged {ℓ κ} : {S : Type ℓ} {A : Type κ} → Action S A → Action S (Unit {0})
logged m s = (ok tt, (m s).1)

-- `if let Some(response_channel) = response_channel { response_channel.send(…)? }`
abbrev pub answer :
    {H : Type 0} {w : World}
    → Services w
    → Option w.Sender
    → SelfResponse
    → Action (At H w) (Unit {0})
answer sv none response = pure tt
answer sv (some channel) response = call (sv.respond channel response)

-- The chain's answer to a new transaction; any other answer is an error.
abbrev pub expect_added : {J : Type 0} → ChainResponse J → Result (Unit {0})
expect_added (ChainResponse.add_transaction_to_block none) = ok tt
expect_added _ = err (error "Failed to execute transaction")

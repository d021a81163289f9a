-- ===== src/Node/Deposit.antt =====
-- crates/node/src/handlers/deposit: `DepositIntentState`. An intent gives a user an address; a bitcoin
-- transaction that pays the address becomes a deposit transaction of the chain.
pub mod Processed
use threshold.Prelude.{
  Bool, true, false, not, Option, none, some, List, [], ◌∷◌, ◌++◌, Bytes, Text, ◌==◌, nat_eq,
  list_eq, Result, ok, err, error, Action, pure, lift, gets, modify, fail, and_then, ◌>>=◌, ◌>>◌,
  contains, set_insert, retain, if◌then◌else◌, ℕ,
}
use threshold.Protocol.Transaction.{
  Transaction, create_deposit_transaction, get_deposit_transaction_address,
}
use threshold.Abci.ChainState.{DepositIntent}
use threshold.Abci.Messages.{ChainMessage, ChainResponse}
use threshold.Types.Network.{World, Broadcast, SelfRequest, SelfResponse, NetworkEvent}
use threshold.Types.Broadcast.{BroadcastMessage, decode_broadcast}
use threshold.Wallet.Spend.{BitcoinTransaction, TxOut}
use threshold.Node.{Services, At, on_own, on_wallet, call, answer, logged, expect_added}

-- Less the channel to the deposit monitor, which is `notify_deposit` of the services.
pub record DepositIntentState : Type 0 where
  pub deposit_addresses : List Text
  pub processed_txids : List Bytes

-- What a deposit needs of other crates: a fresh tracking id and the clock are arguments; the address that
-- the wallet generates for the group's key and an id, and bincode's form of transactions.
pub record DepositCrates (w : World) : Type 0 where
  -- `verifying_key().serialize()`, `PublicKey::from_slice`, the scalar of the id's hash, and
  -- `generate_new_address`
  pub generate_address : w.PublicKeyPackage → (tracking_id : Text) → Action w.Purse Text
  pub encode_transaction : Transaction w.Json → Result Bytes
  pub decode_transaction : Bytes → Result (Transaction w.Json)

module _ {J : Type 0} where
  abbrev pub expect_inserted : ChainResponse J → Result (Unit {0})
  expect_inserted (ChainResponse.insert_deposit_intent none) = ok tt
  expect_inserted _ = err (error "Failed to insert deposit intent")

  abbrev pub expect_intents : ChainResponse J → Result (List DepositIntent)
  expect_intents (ChainResponse.get_all_deposit_intents intents) = ok intents
  expect_intents _ = err (error "Failed to fetch deposit intents from db")

  abbrev pub expect_removed : ChainResponse J → Result (Unit {0})
  expect_removed (ChainResponse.remove_deposit_intent none) = ok tt
  expect_removed _ = err (error "Failed to remove deposit intent")

  abbrev pub intent_in : ChainResponse J → Option DepositIntent
  intent_in (ChainResponse.get_deposit_intent_by_address found) = found
  intent_in _ = none

abbrev pub DepositAction : World → Type 0 → Type 0
DepositAction w A = Action (At DepositIntentState w) A

module _ {w : World} (sv : Services w) (dc : DepositCrates w) where
  -- `self.deposit_addresses.insert(…)`, and the monitor is told of a new address.
  unfoldable pub watch_address : DepositIntent → DepositAction w (Unit {0})
  watch_address intent = do
    known ← gets (λ s. contains s.own.deposit_addresses intent.deposit_address)
    on_own (
        modify (λ own. record own {
          deposit_addresses = set_insert intent.deposit_address own.deposit_addresses;
        }))
    if known then pure tt else logged (call (sv.notify_deposit intent))

  unfoldable pub create_deposit_from_intent : DepositIntent → DepositAction w (Unit {0})
  unfolding watch_address
  create_deposit_from_intent deposit_intent = do
    response ← call (sv.ask_chain (ChainMessage.insert_deposit_intent deposit_intent))
    lift (expect_inserted response)
    address ← lift (sv.parse_address deposit_intent.deposit_address)
    on_wallet (modify (sv.add_address address))
    watch_address deposit_intent

  abbrev pub group_key : Option w.PublicKeyPackage → Result w.PublicKeyPackage
  group_key none = err (error "No public key found")
  group_key (some key) = ok key

  unfoldable pub create_deposit :
      (tracking_id : Text) (now : ℕ) (user_pubkey : Text) (amount_sat : ℕ)
      → DepositAction w (Text × Text)
  unfolding watch_address
  create_deposit tracking_id now user_pubkey amount_sat = do
    package_found ← gets (λ s. s.node.pubkey_package)
    key ← lift (group_key package_found)
    deposit_address ← on_wallet (dc.generate_address key tracking_id)
    let deposit_intent : DepositIntent = record {
      amount_sat = amount_sat;
      user_pubkey = user_pubkey;
      deposit_tracking_id = tracking_id;
      deposit_address = deposit_address;
      timestamp = now;
    }
    response ← call (sv.ask_chain (ChainMessage.insert_deposit_intent deposit_intent))
    lift (expect_inserted response)
    watch_address deposit_intent
    pure (tracking_id, deposit_address)

  unfoldable pub get_pending_deposit_intents : DepositAction w (List DepositIntent)
  get_pending_deposit_intents = do
    response ← call (sv.ask_chain ChainMessage.get_all_deposit_intents)
    lift (expect_intents response)

  -- A failure to encode or to send is only logged.
  abbrev pub broadcast_encoded : Result Bytes → DepositAction w (Unit {0})
  broadcast_encoded (ok bytes) =
      logged (call (sv.send_broadcast (BroadcastMessage.transaction bytes)))
  broadcast_encoded (err e) = pure tt

  unfoldable pub broadcast_transaction : Transaction w.Json → DepositAction w (Unit {0})
  broadcast_transaction transaction = broadcast_encoded (dc.encode_transaction transaction)

  -- The deposit of one output, to an address whose intent the chain has.
  unfoldable pub credit_intent :
      BitcoinTransaction
      → (value : ℕ) → (address : Text) → DepositIntent
      → DepositAction w (Unit {0})
  unfolding broadcast_transaction
  credit_intent tx value address intent = do
    let transaction = create_deposit_transaction sv.metadata tx intent.user_pubkey value
    added ← call (sv.ask_chain (ChainMessage.add_transaction_to_block transaction))
    lift (expect_added added)
    on_own (
        modify (λ own. record {
          deposit_addresses = retain (λ a. not (a == address)) own.deposit_addresses;
          processed_txids = set_insert (sv.compute_txid tx) own.processed_txids;
        }))
    removed ← call (sv.ask_chain (ChainMessage.remove_deposit_intent intent))
    lift (expect_removed removed)
    broadcast_transaction transaction

  unfoldable pub credit_found :
      BitcoinTransaction → ℕ → Text → Option DepositIntent → DepositAction w (Unit {0})
  unfolding credit_intent
  credit_found tx value address none = pure tt
  credit_found tx value address (some intent) = credit_intent tx value address intent

  unfoldable pub credit_address : BitcoinTransaction → ℕ → Option Text → DepositAction w (Unit {0})
  unfolding credit_found
  credit_address tx value none = pure tt
  credit_address tx value (some address) = do
    watched ← gets (λ s. contains s.own.deposit_addresses address)
    if not watched then pure tt else do
      response ← call (sv.ask_chain (ChainMessage.get_deposit_intent_by_address address))
      credit_found tx value address (intent_in response)

  unfoldable pub credit_outputs : BitcoinTransaction → List TxOut → DepositAction w (Unit {0})
  unfolding credit_address
  credit_outputs tx [] = pure tt
  credit_outputs tx (output ∷ outputs) = do
    credit_address tx output.value (sv.testnet_address output.script_pubkey)
    credit_outputs tx outputs

  unfoldable pub insert_pending_deposit_transaction :
      BitcoinTransaction → DepositAction w (Unit {0})
  unfolding credit_outputs
  insert_pending_deposit_transaction tx = do
    processed ← gets (λ s. contains s.own.processed_txids (sv.compute_txid tx))
    if processed then pure tt else do
      on_own (
          modify (λ own. record own { processed_txids = sv.compute_txid tx ∷ own.processed_txids }))
      credit_outputs tx tx.output
      on_wallet (sv.ingest_external_tx tx)

  -- A deposit transaction that another node broadcast.
  abbrev pub handle_transaction : Result (Transaction w.Json) → DepositAction w (Unit {0})
  handle_transaction (err e) = pure tt
  handle_transaction (ok transaction) = do
    logged (call (sv.ask_chain (ChainMessage.add_transaction_to_block transaction)))
    tx ← lift (get_deposit_transaction_address sv.metadata transaction)
    on_wallet (sv.ingest_external_tx tx)

  abbrev pub handle_broadcast : Broadcast w → DepositAction w (Unit {0})
  handle_broadcast (BroadcastMessage.transaction bytes) =
      handle_transaction (dc.decode_transaction bytes)
  handle_broadcast _ = pure tt

  -- The result of a request, or its error, goes to who asked; nobody hears of it if nobody waits.
  abbrev pub respond_result :
      {A : Type 0}
      → Option w.Sender
      → (A → SelfResponse)
      → DepositAction w A
      → DepositAction w (Unit {0})
  respond_result channel response m s = elim (m s).0 [
    | ok a ↦ answer sv channel (response a) (m s).1
    | err e ↦ answer sv channel (SelfResponse.node_error e) (m s).1
  ]

  unfoldable pub handle :
      (tracking_id : Text) (now : ℕ) → NetworkEvent w → DepositAction w (Unit {0})
  unfolding create_deposit get_pending_deposit_intents insert_pending_deposit_transaction
  handle tracking_id now
        (NetworkEvent.self_request (SelfRequest.create_deposit user_pubkey amount_sat) channel) =
      respond_result channel (λ made. SelfResponse.create_deposit made.0 made.1)
        (create_deposit tracking_id now user_pubkey amount_sat)
  handle tracking_id now
        (NetworkEvent.self_request SelfRequest.get_pending_deposit_intents channel) =
      respond_result channel SelfResponse.get_pending_deposit_intents get_pending_deposit_intents
  handle tracking_id now
        (NetworkEvent.self_request (SelfRequest.confirm_deposit confirmed_tx) channel) =
      logged (insert_pending_deposit_transaction confirmed_tx)
  handle tracking_id now (NetworkEvent.gossipsub_message message) = do
    broadcast ← lift (decode_broadcast sv.prost message.payload)
    handle_broadcast broadcast
  handle tracking_id now _ = pure tt

-- ===== src/Node/Tests.antt =====
-- The theorems about a node's handlers, each at a concrete input.
use threshold.Prelude.{
  ℕ, ◌+◌, ◌-◌, ◌*◌, ◌≡◌, refl, Bool, true, false, Option, none, some, List, [], ◌∷◌, Bytes, Text,
  Memᴰ, nat_eq, list_eq, ok, err, error, Action, add64,
}
use threshold.Prelude.Dict.{lookup, insert}
use threshold.Protocol.Block.{zero_hash}
use threshold.Protocol.Transaction.{Metadata}
use threshold.Abci.ChainState.{DepositIntent}
use threshold.Abci.Messages.{ChainMessage, ChainResponse}
use threshold.Consensus.Messages.{ConsensusResponse}
use threshold.Types.Network.{World, WithdrawlIntent, SelfRequest, NetworkEvent}
use threshold.Types.Proto.{Wire, Prost}
use threshold.Types.Broadcast.{decode_broadcast}
use threshold.Wallet.Spend.{BitcoinTransaction}
use threshold.Node.{NodeState, Services, At}
use threshold.Node.MainLoop.{Running, start, handle_message}
use threshold.Node.Dkg
use threshold.Node.Dkg.{DkgState, DkgInner, DkgCrates}
use threshold.Node.Dkg.Secrets.{DkgIsValid}
use threshold.Node.Dkg.Handler.{handle-DkgIsValid}
use threshold.Node.Handlers.{AnyHandler, Crates, run, new_from_config, undecodable-disables}
use threshold.Node.Withdrawal.{
  SpendIntentState, Secp, verify_signature, propose_withdrawal, confirm_withdrawal,
}
use threshold.Node.Withdrawal.Confirm.{confirm_withdrawal-once}
use threshold.Node.Withdrawal.Propose.{Funded, propose-confirm}
use threshold.Node.Deposit.{DepositIntentState, DepositCrates, insert_pending_deposit_transaction}
use threshold.Node.Deposit.Processed.{insert_pending_deposit_transaction-once}
use threshold.Node.Signing.{
  ActiveSigning, SigningState, Frost, handle_sign_package, handle_commitments_response,
}
use threshold.Node.Signing.Nonces.{
  signed_session, handle_sign_package-once, handle_commitments_response-signs_again,
}
use threshold.Node.Signing.Spending.{start_spend_request}
use threshold.Node.Signing.Busy.{start_spend_request-busy}

-- Everything is a number; the surroundings are the requests that the node sent to itself, and the
-- wallet is what its coins are worth.
abbrev world : World
world = record {
  PeerId = ℕ;
  Multiaddr = ℕ;
  TopicHash = ℕ;
  Gossip = ℕ;
  Round2Package = ℕ;
  Round1Package = ℕ;
  Round1Secret = ℕ;
  Round2Secret = ℕ;
  PublicKeyPackage = ℕ;
  KeyPackage = ℕ;
  Identifier = ℕ;
  SigningNonces = ℕ;
  SigningCommitments = ℕ;
  SigningPackage = List ℕ;
  SignatureShare = ℕ;
  Signature = ℕ;
  Json = ℕ;
  Address = Text;
  Sender = ℕ;
  Rate = ℕ;
  Purse = ℕ;
  Outside = List SelfRequest;
}

abbrev never : {A : Type 0} → Wire A
never = record { encode = λ a. err (error "not sent"); decode = λ bs. err (error "not read") }

abbrev prost : Prost BitcoinTransaction ℕ
prost = record {
  consensus = never;
  deposit_intent = never;
  pending_spend = never;
  encode_gossip = λ d. d ∷ [];
  decode_gossip = λ bs. err (error "not read");
  serialize_tx = λ t. [];
  deserialize_tx = λ bs. err (error "not read");
  display_u8 = λ n. "";
}

abbrev metadata : Metadata BitcoinTransaction ℕ
metadata = record {
  compute_txid = λ tx. tx.version ∷ [];
  deposit_json = λ tx user_pubkey amount. amount;
  withdrawal_json = λ user_pubkey amount address_to. amount;
  get_tx = λ j. some j;
  tx_from_value = λ j. none;
}

abbrev tx_paying : Bytes → BitcoinTransaction
tx_paying script = record {
  version = 2;
  lock_time = 0;
  input = [];
  output = record { value = 9; script_pubkey = script } ∷ [];
}

abbrev intent_at : Text → DepositIntent
intent_at address = record {
  amount_sat = 9;
  user_pubkey = 1 ∷ [];
  deposit_tracking_id = 7 ∷ [];
  deposit_address = address;
  timestamp = 0;
}

abbrev chain_answer : ChainMessage ℕ ℕ → ChainResponse ℕ
chain_answer (ChainMessage.get_account address) =
    ChainResponse.get_account (some (record { address = address; balance = 100 }))
chain_answer (ChainMessage.add_transaction_to_block transaction) =
    ChainResponse.add_transaction_to_block none
chain_answer (ChainMessage.get_deposit_intent_by_address address) =
    ChainResponse.get_deposit_intent_by_address (some (intent_at address))
chain_answer (ChainMessage.remove_deposit_intent intent) = ChainResponse.remove_deposit_intent none
chain_answer _ = ChainResponse.get_pending_transactions []

abbrev done : {S : Type 0} → Action S (Unit {0})
done s = (ok tt, s)

-- A spend that is no dry run takes the amount and the fee.
abbrev spend_coins : ℕ → ℕ → Text → Bool → Action ℕ (BitcoinTransaction × Bytes)
spend_coins amount fee address true purse = (ok (tx_paying address, []), purse)
spend_coins amount fee address false purse = (ok (tx_paying address, []), purse - amount - fee)

abbrev services : Services world
services = record {
  ask_chain = λ message o. (ok (chain_answer message), o);
  ask_consensus = λ message o. (ok (ConsensusResponse.set_leader none), o);
  send_broadcast = λ message. done;
  send_private_message = λ peer message. done;
  send_self_request = λ request sync o. (ok tt, request ∷ o);
  respond = λ sender response. done;
  notify_deposit = λ intent. done;
  get_current_fee_per_vb = λ blocks o. (ok 1, o);
  broadcast_transaction = λ tx. done;
  create_spend = spend_coins;
  ingest_external_tx = λ tx. done;
  add_address = λ address purse. purse;
  fee_of = λ rate size. ok (rate * size);
  parse_address = λ t. ok t;
  testnet_address = λ script. some script;
  vsize = λ tx. 5;
  compute_txid = λ tx. tx.version ∷ [];
  metadata = metadata;
  prost = prost;
  hex_encode = λ bs. bs;
  peer_identifier = λ p. p;
  peer_bytes = λ p. p ∷ [];
}

abbrev node : NodeState world
node = record {
  peer_id = 1;
  peers = 2 ∷ 3 ∷ [];
  pubkey_package = some 4;
  private_key_package = some 5;
  min_signers = some 2;
  max_signers = some 3;
  wallet = 50;
  outside = [];
}

-- Every signature by a key with some bytes is valid; digests are 32 zeros.
abbrev secp : Secp ℕ ℕ ℕ
secp = record {
  parse_public_key = λ t. ok 0;
  signature_from_der = λ bs. ok 0;
  from_digest_slice = λ bs. ok 0;
  verify_ecdsa = λ m g k. true;
  hex_decode = λ t. ok t;
  hex_encode = λ bs. bs;
  sha256 = λ bs. zero_hash;
}

abbrev asking : At SpendIntentState world
asking = record { own = record { pending_intents = [] }; node = node }

abbrev wish : WithdrawlIntent
wish = record {
  amount_sat = 20;
  address_to = 8 ∷ [];
  public_key = 9 ∷ [];
  blocks_to_confirm = none;
}

propose-confirm_example :
    let s' = (propose_withdrawal services secp [] wish asking).1 in
    Funded services secp wish asking
    × (verify_signature secp zero_hash [] wish.public_key ≡ ok true)
    × ((fee : ℕ) × (30 ≡ add64 20 fee)
        × ((confirm_withdrawal services secp zero_hash [] s').1.node.outside
            ≡ SelfRequest.spend 20 fee (8 ∷ []) (9 ∷ []) ∷ s'.node.outside))
unfolding propose_withdrawal confirm_withdrawal verify_signature lookup insert
propose-confirm_example =
    propose-confirm services secp [] wish [] asking {total = 30} {challenge = zero_hash} refl refl

confirm_withdrawal-once_example :
    let s' = (confirm_withdrawal services secp zero_hash [] asking).1 in
    confirm_withdrawal services secp zero_hash (3 ∷ []) s' ≡ (err (error "Challenge not found"), s')
confirm_withdrawal-once_example = confirm_withdrawal-once services secp zero_hash [] (3 ∷ []) asking

abbrev crates : DepositCrates world
crates = record {
  generate_address = λ key tracking_id purse. (ok tracking_id, purse);
  encode_transaction = λ tx. ok [];
  decode_transaction = λ bs. err (error "not read");
}

abbrev watching : At DepositIntentState world
watching = record {
  own = record { deposit_addresses = (8 ∷ []) ∷ []; processed_txids = [] };
  node = node;
}

insert_pending_deposit_transaction-once_example :
    let s' = (insert_pending_deposit_transaction services crates (tx_paying (8 ∷ [])) watching).1 in
    insert_pending_deposit_transaction services crates (tx_paying (8 ∷ [])) s' ≡ (ok tt, s')
insert_pending_deposit_transaction-once_example =
    insert_pending_deposit_transaction-once services crates (tx_paying (8 ∷ [])) watching

-- A participant in session 6.
abbrev session : Bool → ActiveSigning world
session is_coordinator = record {
  sign_id = 6;
  message = zero_hash;
  selected_peers = 2 ∷ [];
  nonces = 11;
  commitments = (1, 12) ∷ (2, 13) ∷ [];
  signature_shares = [];
  signing_package = none;
  is_coordinator = is_coordinator;
}

abbrev signing : Bool → At (SigningState world) world
signing is_coordinator = record {
  own = record { active_signing = some (session is_coordinator); pending_spends = [] };
  node = node;
}

abbrev first_byte : Bytes → Option ℕ
first_byte [] = none
first_byte (b ∷ bs) = some b

abbrev frost : Frost world
frost = record {
  next_u64 = λ o. (6, o);
  shuffle = λ peers o. (peers, o);
  commit = λ key o. ((11, 12), o);
  serialize_commitments = λ c. some (c ∷ []);
  deserialize_commitments = first_byte;
  new_package = λ commitments message. message;
  serialize_package = λ package_bytes. some package_bytes;
  deserialize_package = λ bs. some bs;
  sign = λ signing_package nonces key. ok (nonces + key);
  serialize_share = λ share. share ∷ [];
  deserialize_share = first_byte;
  aggregate = λ signing_package shares key. ok 0;
  serialize_signature = λ signature. some [];
  schnorr_from_slice = λ bs. some bs;
  decode_hex_trimmed = λ t. some t;
}

handle_sign_package-once_example :
    let s' = (handle_sign_package services frost 2 6 [] (signing false)).1 in
    handle_sign_package services frost 3 6 (1 ∷ []) s' ≡ (err (error "No active session"), s')
unfolding handle_sign_package
handle_sign_package-once_example =
    handle_sign_package-once services frost 2 3 6 6 [] (1 ∷ []) (signing false) refl

handle_commitments_response-signs_again_example :
    ((handle_commitments_response services frost 2 6 (14 ∷ []) (signing true)).0 ≡ ok tt)
    × ((handle_commitments_response services frost 2 6
          (14 ∷ [])
          (signing true)).1.own.active_signing
        ≡ some (
            signed_session services frost 1
              (record (session true) { commitments = insert 2 14 (session true).commitments })
              16))
unfolding lookup insert
handle_commitments_response-signs_again_example =
    handle_commitments_response-signs_again services frost 2 6 (14 ∷ []) (session true)
      (signing true) {first = 13} {second = 14} {key = 5} {share = 16} refl refl refl refl refl refl
      refl refl

start_spend_request-busy_example :
    let (r, s') =
      start_spend_request services frost (λ a. a) 20 5 (8 ∷ []) (9 ∷ []) false (signing true) in
    (r ≡ ok none) × (s'.own ≡ (signing true).own) × (s'.node.wallet ≡ 25)
start_spend_request-busy_example =
    start_spend_request-busy services frost (λ a. a) 20 5 (8 ∷ []) (9 ∷ []) false (session true)
      (signing true) {addr = 8 ∷ []} refl refl

abbrev dkg_crates : DkgCrates world
dkg_crates = record {
  part1 = λ identifier max_signers min_signers o. (ok (21, 22), o);
  serialize_round1 = λ made. ok (made ∷ []);
  deserialize_round1 = λ bs. ok 22;
  part2 = λ secret packages. ok (23, []);
  part3 = λ secret packages received. ok (5, 4);
  save_dkg_keys = λ key public. done;
  start_dkg_message = λ peer. 0;
  round1_message = λ bs. 1;
  read_gossip = λ g. DkgInner.start_run;
}

-- A node without keys that waits for one more peer of two.
abbrev joining : At (DkgState world) world
joining = record {
  own = record {
    dkg_started = false;
    dkg_listeners = 2 ∷ [];
    round1_listeners = 2 ∷ [];
    round1_peer_packages = [];
    round2_peer_packages = [];
    r1_secret_package = none;
    r2_secret_package = none;
  };
  node = record node { pubkey_package = none; private_key_package = none };
}

handle-DkgIsValid_example :
    DkgIsValid (Dkg.Handler.handle services dkg_crates (NetworkEvent.subscribed 3 0) joining).1
handle-DkgIsValid_example =
    handle-DkgIsValid services dkg_crates (NetworkEvent.subscribed 3 0) joining refl

abbrev all_crates : Crates world
all_crates = record {
  Key = ℕ;
  SignatureDer = ℕ;
  Digest = ℕ;
  secp = secp;
  frost = frost;
  dkg_crates = dkg_crates;
  deposit_crates = crates;
  script_pubkey = λ a. a;
  nonce = [];
  tracking_id = 7 ∷ [];
  now = 0;
}

abbrev fresh : Running (AnyHandler world) world
fresh = new_from_config services all_crates 1 (some (5, 4)) (some 2) (some 3) 50 []

-- A message with no bytes, and then an event that says nothing.
undecodable-disables_example :
    (start services
      (run services all_crates)
      (NetworkEvent.unknown ∷ [])
      (handle_message services
        (run services all_crates)
        (NetworkEvent.gossipsub_message (record { source = some 2; payload = [] }))
        fresh).1).handlers
    ≡ []
unfolding new_from_config decode_broadcast
undecodable-disables_example =
    undecodable-disables services all_crates (record { source = some 2; payload = [] })
      (NetworkEvent.unknown ∷ []) (record { pending_intents = [] }) fresh
      {x = error "Empty broadcast message"}
      (Memᴰ.tail (Memᴰ.tail (Memᴰ.tail (Memᴰ.tail (Memᴰ.head refl))))) refl

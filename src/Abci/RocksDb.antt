-- ===== src/Abci/RocksDb.antt =====
-- crates/abci/src/db/rocksdb.rs: `RocksDb`, over the operations that the crate rocksdb gives it.
pub mod Contents
pub mod Written
pub mod Refines
pub mod Outputs
pub mod Keeps
pub mod Tests
use threshold.Prelude.{
  ℕ, Bool, true, false, ◌&&◌, Option, none, some, List, [], ◌∷◌, ◌++◌, Bytes, Text, ◌==◌, nat_eq,
  Result, ok, err, error, ok_of, and_then, Action, lift, ◌>>=◌, ◌>>◌, pure, length, display,
  nat_eqb, not, if◌then◌else◌,
}
use threshold.Protocol.Codec.{Codec}
use threshold.Protocol.Block.{Block, hash}
use threshold.Abci.ChainState
use threshold.Abci.ChainState.{DepositIntent, ChainState}
use threshold.Abci.Db.{Db, Utxo}

-- The column families that `RocksDb::new` opens.
pub data ColumnFamily : Type 0 where
  deposit_intents_cf blocks_cf chain_state_cf utxos_cf : ColumnFamily

-- The crate rocksdb, for a type `S` of opened databases.
pub record Rocks (S : Type 0) : Type 0 where
  pub get_cf : ColumnFamily → Bytes → S → Result (Option Bytes)
  pub put_cf : ColumnFamily → Bytes → Bytes → Action S (Unit {0})
  pub delete_cf : ColumnFamily → Bytes → Action S (Unit {0})
  -- `iterator_cf` from the start
  pub iterator_cf : ColumnFamily → S → List (Result (Bytes × Bytes))

-- bincode's standard configuration, for a type whose form it derives.
pub record Bincode (A : Type 0) : Type 0 where
  pub encode_to_vec : A → Result Bytes
  pub decode_from_slice : Bytes → Result A

-- What is stored, and how bytes and transaction ids are shown as texts.
pub record Formats (J : Type 0) : Type 0 where
  pub block_form : Bincode (Block J)
  pub state_form : Bincode (ChainState J)
  pub intent_form : Bincode DepositIntent
  pub utxo_form : Bincode Utxo
  -- `hex::encode`
  pub hex_encode : Bytes → Text
  -- `Display` of bitcoin's `Txid`
  pub display_txid : Bytes → Text

-- "tip"
abbrev pub tip_key : Text
tip_key = 116 ∷ 105 ∷ 112 ∷ []

-- "current"
abbrev pub current_key : Text
current_key = 99 ∷ 117 ∷ 114 ∷ 114 ∷ 101 ∷ 110 ∷ 116 ∷ []

-- `format!("h:{height}")`
abbrev pub height_key : ℕ → Text
height_key height = 104 ∷ 58 ∷ display height

-- "addr:"
abbrev pub address_prefix : Text
address_prefix = 97 ∷ 100 ∷ 100 ∷ 114 ∷ 58 ∷ []

-- `format!("addr:{address}")`
abbrev pub address_key : Text → Text
address_key address = address_prefix ++ address

-- "utxo:"
abbrev pub utxo_prefix : Text
utxo_prefix = 117 ∷ 116 ∷ 120 ∷ 111 ∷ 58 ∷ []

-- `slice::starts_with`
abbrev pub starts_with : Bytes → Bytes → Bool
starts_with xs [] = true
starts_with [] (y ∷ ys) = false
starts_with (x ∷ xs) (y ∷ ys) = nat_eqb x y && starts_with xs ys

module _ {S J : Type 0} (rocks : Rocks S) (f : Formats J) where
  -- `format!("b:{}", hex::encode(hash))`
  abbrev pub block_key : Bytes → Text
  block_key h = 98 ∷ 58 ∷ f.hex_encode h

  -- `block.and_then(|b| Block::deserialize(&b).ok())`
  abbrev pub stored_block : Option Bytes → Option (Block J)
  stored_block none = none
  stored_block (some b) = ok_of (f.block_form.decode_from_slice b)

  unfoldable pub get_block_by_hash : Bytes → S → Result (Option (Block J))
  get_block_by_hash h d =
      and_then (rocks.get_cf blocks_cf (block_key h) d) (λ b. ok (stored_block b))

  unfoldable pub get_block_by_height : ℕ → S → Result (Option (Block J))
  get_block_by_height height d =
      and_then (rocks.get_cf blocks_cf (height_key height) d) (λ block_hash. elim block_hash [
        | none ↦ ok none
        | some h ↦ and_then (rocks.get_cf blocks_cf (block_key h) d) (λ b. ok (stored_block b))
      ])

  -- `copy_from_slice` panics when the stored hash has another length than 32; the panic is an error
  -- here.
  abbrev pub tip_of : Option Bytes → Result (Option Bytes)
  tip_of none = ok none
  tip_of (some h) =
      if length h == 32
      then ok (some h)
      else err (error "source slice length does not match destination slice length")

  unfoldable pub get_tip_block_hash : S → Result (Option Bytes)
  get_tip_block_hash d = and_then (rocks.get_cf blocks_cf tip_key d) tip_of

  -- An absent state is read as the empty one.
  abbrev pub stored_state : Option Bytes → Result (Option (ChainState J))
  stored_state none = ok (some ChainState.empty)
  stored_state (some b) = and_then (f.state_form.decode_from_slice b) (λ s. ok (some s))

  unfoldable pub get_chain_state : S → Result (Option (ChainState J))
  get_chain_state d = and_then (rocks.get_cf chain_state_cf current_key d) stored_state

  unfoldable pub insert_chain_state : ChainState J → Action S (Unit {0})
  insert_chain_state s = do
    serialized ← lift (f.state_form.encode_to_vec s)
    rocks.put_cf chain_state_cf current_key serialized

  unfoldable pub insert_block : Codec J → Block J → Action S (Unit {0})
  insert_block c block = do
    serialized ← lift (f.block_form.encode_to_vec block)
    rocks.put_cf blocks_cf (block_key (hash c block)) serialized
    rocks.put_cf blocks_cf (height_key block.header.height) (hash c block)
    rocks.put_cf blocks_cf tip_key (hash c block)

  unfoldable pub insert_deposit_intent : DepositIntent → Action S (Unit {0})
  insert_deposit_intent intent = do
    serialized ← lift (f.intent_form.encode_to_vec intent)
    rocks.put_cf deposit_intents_cf intent.deposit_tracking_id serialized
    rocks.put_cf deposit_intents_cf (address_key intent.deposit_address) serialized

  abbrev pub stored_intent : Option Bytes → Result (Option DepositIntent)
  stored_intent none = ok none
  stored_intent (some b) = and_then (f.intent_form.decode_from_slice b) (λ i. ok (some i))

  unfoldable pub get_deposit_intent : Text → S → Result (Option DepositIntent)
  get_deposit_intent tracking_id d =
      and_then (rocks.get_cf deposit_intents_cf tracking_id d) stored_intent

  unfoldable pub get_deposit_intent_by_address : Text → S → Result (Option DepositIntent)
  get_deposit_intent_by_address address d =
      and_then (rocks.get_cf deposit_intents_cf (address_key address) d) stored_intent

  unfoldable pub remove_deposit_intent : DepositIntent → Action S (Unit {0})
  remove_deposit_intent intent = do
    rocks.delete_cf deposit_intents_cf intent.deposit_tracking_id
    rocks.delete_cf deposit_intents_cf (address_key intent.deposit_address)

  -- The values among some items whose keys pass a test; the first that cannot be read is an error.
  unfoldable pub read_items :
      {A : Type 0} → (Bytes → Bool) → Bincode A → List (Result (Bytes × Bytes)) → Result (List A)
  read_items p form [] = ok []
  read_items p form (item ∷ items) =
      let rest = read_items p form items in
      and_then item (λ kv.
        if p kv.0
        then and_then (form.decode_from_slice kv.1) (λ a. and_then rest (λ more. ok (a ∷ more)))
        else rest)

  unfoldable pub get_all_deposit_intents : S → Result (List DepositIntent)
  unfolding read_items
  get_all_deposit_intents d =
      read_items (λ key. not (starts_with key address_prefix)) f.intent_form
        (rocks.iterator_cf deposit_intents_cf d)

  unfoldable pub flush_state : ChainState J → Action S (Unit {0})
  unfolding insert_chain_state
  flush_state = insert_chain_state

  unfoldable pub store_utxos : List Utxo → Action S (Unit {0})
  store_utxos [] = pure tt
  store_utxos (utxo ∷ utxos) = do
    serialized ← lift (f.utxo_form.encode_to_vec utxo)
    rocks.put_cf utxos_cf (utxo_prefix ++ f.display_txid utxo.outpoint.txid) serialized
    store_utxos utxos

  unfoldable pub get_utxos : S → Result (List Utxo)
  unfolding read_items
  get_utxos d =
      read_items (λ key. starts_with key utxo_prefix) f.utxo_form (rocks.iterator_cf utxos_cf d)

  -- `impl Db for RocksDb`
  abbrev pub rocks_db : Codec J → Db S J
  rocks_db c = record {
    get_block_by_height = get_block_by_height;
    get_block_by_hash = get_block_by_hash;
    get_tip_block_hash = get_tip_block_hash;
    get_chain_state = get_chain_state;
    insert_chain_state = insert_chain_state;
    insert_block = insert_block c;
    insert_deposit_intent = insert_deposit_intent;
    get_deposit_intent = get_deposit_intent;
    get_all_deposit_intents = get_all_deposit_intents;
    remove_deposit_intent = remove_deposit_intent;
    get_deposit_intent_by_address = get_deposit_intent_by_address;
    flush_state = flush_state;
    store_utxos = store_utxos;
    get_utxos = get_utxos;
  }

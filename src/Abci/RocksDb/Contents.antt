-- ===== src/Abci/RocksDb/Contents.antt =====
-- What a reader of crates/abci/src/db/rocksdb.rs sees of the database, and what each write does to
-- it: the specification that the writes refine.
use threshold.Prelude.{
  ℕ, ◌≡◌, Bool, ◌&&◌, Option, none, some, Bytes, Text, ◌==◌, nat_eq, list_eq, Result, ok, Action,
  pure, ◌>>◌, length, List, [], ◌∷◌, if◌then◌else◌,
}
use threshold.Protocol.Codec.{Codec}
use threshold.Protocol.Block.{Block, hash}
use threshold.Abci.ChainState.{DepositIntent, ChainState}
use threshold.Abci.RocksDb.{
  ColumnFamily, blocks_cf, chain_state_cf, deposit_intents_cf, utxos_cf, Rocks, Bincode, Formats,
  address_key, height_key, get_block_by_hash, get_tip_block_hash, get_chain_state,
  get_deposit_intent, insert_chain_state, insert_block, insert_deposit_intent,
  remove_deposit_intent,
}

pub record Contents (J : Type 0) : Type 0 where
  pub current : Result (Option (ChainState J))
  pub block_of : Bytes → Result (Option (Block J))
  pub hash_at : ℕ → Result (Option Bytes)
  pub tip : Result (Option Bytes)
  -- An intent is stored under its tracking id and under its address; both are keys of one family.
  pub intent_under : Text → Result (Option DepositIntent)

pub data Write (J : Type 0) : Type 0 where
  put_state : ChainState J → Write J
  put_block : Block J → Write J
  put_intent remove_intent : DepositIntent → Write J

module _ {J : Type 0} (c : Codec J) where
  -- What a write means.
  unfoldable pub apply : Write J → Contents J → Contents J
  apply (put_state s) v = record v { current = ok (some s) }
  apply (put_block block) v = record v {
    block_of = λ h. if hash c block == h then ok (some block) else v.block_of h;
    hash_at = λ height.
        if block.header.height == height then ok (some (hash c block)) else v.hash_at height;
    tip = ok (some (hash c block));
  }
  apply (put_intent intent) v = record v {
    intent_under = λ key.
        if address_key intent.deposit_address == key
        then ok (some intent)
        else if intent.deposit_tracking_id == key
        then ok (some intent)
        else v.intent_under key;
  }
  apply (remove_intent intent) v = record v {
    intent_under = λ key.
        if address_key intent.deposit_address == key
        then ok none
        else if intent.deposit_tracking_id == key
        then ok none
        else v.intent_under key;
  }

  unfoldable pub apply_all : List (Write J) → Contents J → Contents J
  apply_all [] v = v
  apply_all (w ∷ ws) v = apply_all ws (apply w v)

module _ {S J : Type 0} (rocks : Rocks S) (f : Formats J) where
  unfoldable pub perform : Codec J → Write J → Action S (Unit {0})
  unfolding insert_chain_state insert_block insert_deposit_intent remove_deposit_intent
  perform c (put_state s) = insert_chain_state rocks f s
  perform c (put_block block) = insert_block rocks f c block
  perform c (put_intent intent) = insert_deposit_intent rocks f intent
  perform c (remove_intent intent) = remove_deposit_intent rocks f intent

  unfoldable pub perform_all : Codec J → List (Write J) → Action S (Unit {0})
  perform_all c [] = pure tt
  perform_all c (w ∷ ws) = do perform c w; perform_all c ws

  unfoldable pub contents : S → Contents J
  unfolding get_chain_state get_block_by_hash get_tip_block_hash get_deposit_intent
  contents d = record {
    current = get_chain_state rocks f d;
    block_of = λ h. get_block_by_hash rocks f h d;
    hash_at = λ height. rocks.get_cf blocks_cf (height_key height) d;
    tip = get_tip_block_hash rocks f d;
    intent_under = λ key. get_deposit_intent rocks f key d;
  }

abbrev pub family_index : ColumnFamily → ℕ
family_index deposit_intents_cf = 0
family_index blocks_cf = 1
family_index chain_state_cf = 2
family_index utxos_cf = 3

abbrev pub same_family : ColumnFamily → ColumnFamily → Bool
same_family a b = family_index a == family_index b

-- What the crate rocksdb owes: a write that succeeds is read back, and no other key changes.
pub record Stores {S : Type 0} (rocks : Rocks S) : Type 0 where
  pub get-put :
      (cf cf' : ColumnFamily) (k k' v : Bytes) (d : S)
      → (rocks.put_cf cf k v d).0 ≡ ok tt
      → rocks.get_cf cf' k' (rocks.put_cf cf k v d).1
        ≡ (if same_family cf cf' && (k == k') then ok (some v) else rocks.get_cf cf' k' d)
  pub get-delete :
      (cf cf' : ColumnFamily) (k k' : Bytes) (d : S)
      → (rocks.delete_cf cf k d).0 ≡ ok tt
      → rocks.get_cf cf' k' (rocks.delete_cf cf k d).1
        ≡ (if same_family cf cf' && (k == k') then ok none else rocks.get_cf cf' k' d)

-- What bincode owes: what it encodes it decodes again.
pub record Decodes {A : Type 0} (form : Bincode A) : Type 0 where
  pub decode-encode :
      (a : A) (bs : Bytes) → form.encode_to_vec a ≡ ok bs → form.decode_from_slice bs ≡ ok a

-- The forms of what is stored, hex, and SHA-256, whose digests have 32 bytes. The metadata of a transaction
-- is stored as JSON, so `Some(Value::Null)` would be read back as `None`: `J` is the values other than null,
-- which are all that the program puts there.
pub record Faithful {J : Type 0} (f : Formats J) (c : Codec J) : Type 0 where
  pub block_back : Decodes f.block_form
  pub state_back : Decodes f.state_form
  pub intent_back : Decodes f.intent_form
  pub hex_injective : (a b : Bytes) → f.hex_encode a ≡ f.hex_encode b → a ≡ b
  pub digest_length : (bs : Bytes) → length (c.sha256 bs) ≡ 32

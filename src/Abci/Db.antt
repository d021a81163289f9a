-- ===== src/Abci/Db.antt =====
-- crates/abci/src/db/mod.rs: the trait `Db`, over any type `D` of databases.
use threshold.Prelude.{ℕ, Option, List, Bytes, Text, Result, Action}
use threshold.Protocol.Block.{Block}
use threshold.Abci.ChainState.{DepositIntent, ChainState}

-- crates/types/src/utxo.rs
pub record OutPoint : Type 0 where
  pub txid : Bytes
  pub vout : ℕ

pub record Utxo : Type 0 where
  pub outpoint : OutPoint
  pub value : ℕ
  pub script_pubkey : Bytes

pub record Db (D J : Type 0) : Type 0 where
  pub get_block_by_height : ℕ → D → Result (Option (Block J))
  pub get_block_by_hash : Bytes → D → Result (Option (Block J))
  pub get_tip_block_hash : D → Result (Option Bytes)
  pub get_chain_state : D → Result (Option (ChainState J))
  pub insert_chain_state : ChainState J → Action D (Unit {0})
  pub insert_block : Block J → Action D (Unit {0})
  pub insert_deposit_intent : DepositIntent → Action D (Unit {0})
  pub get_deposit_intent : Text → D → Result (Option DepositIntent)
  pub get_all_deposit_intents : D → Result (List DepositIntent)
  pub remove_deposit_intent : DepositIntent → Action D (Unit {0})
  pub get_deposit_intent_by_address : Text → D → Result (Option DepositIntent)
  pub flush_state : ChainState J → Action D (Unit {0})
  pub store_utxos : List Utxo → Action D (Unit {0})
  pub get_utxos : D → Result (List Utxo)

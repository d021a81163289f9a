-- ===== src/Abci/Interface.antt =====
-- crates/abci/src/lib.rs, `ChainInterfaceImpl`, and crates/abci/src/main_loop.rs, `handle`.
pub mod Finalize
pub mod Pending
use threshold.Prelude.{
  ℕ, Option, none, some, List, [], ◌∷◌, Bytes, Text, Eq, Result, ok, err, error_of, Action, pure,
  lift, gets, NodeError, modify, ◌>>=◌, ◌>>◌, length,
}
use threshold.Protocol.Codec.{Codec}
use threshold.Protocol.Transaction.{Transaction}
use threshold.Protocol.Block.{Block, ValidatorInfo, ChainConfig, new_genesis, to_block}
use threshold.Abci.ChainState
use threshold.Abci.ChainState.{Account, DepositIntent, ChainState}
use threshold.Abci.Executor.{Oracle, Executor, new_executor, execute_transaction}
use threshold.Abci.Db.{Db}
use threshold.Abci.Messages.{ChainMessage, ChainResponse}

-- `ChainInterfaceImpl`, less its message stream.
pub record Chain (D J : Type 0) : Type 0 where
  pub db : D
  pub executor : Executor J
  pub chain_state : ChainState J

-- What an action on a part does to the whole.
module _ {D J A : Type 0} where
  abbrev pub on_executor : Action (Executor J) A → Action (Chain D J) A
  on_executor m c = let (r, e) = m c.executor in (r, record c { executor = e })

  abbrev pub on_db : Action D A → Action (Chain D J) A
  on_db m c = let (r, d) = m c.db in (r, record c { db = d })

abbrev pub set_chain_state : {D J : Type 0} → ChainState J → Chain D J → Chain D J
set_chain_state s c = record c { chain_state = s }

module _ {J : Type 0} where
  -- `db.get_chain_state().unwrap_or_default().unwrap_or_default()`
  abbrev pub stored_or_default : Result (Option (ChainState J)) → ChainState J
  stored_or_default (ok (some s)) = s
  stored_or_default (ok none) = ChainState.empty
  stored_or_default (err e) = ChainState.empty

  -- The loop over the block's transactions: each runs on the state that the one before it returned.
  unfoldable pub execute_block :
      Oracle → List (Transaction J) → ChainState J → Action (Executor J) (ChainState J)
  execute_block oracle [] s = pure s
  execute_block oracle (tx ∷ txs) s = do
    s' ← execute_transaction oracle tx s
    execute_block oracle txs s'

-- The answer to a message that reports only whether it failed.
abbrev pub report :
    {D J : Type 0}
    → (Option NodeError → ChainResponse J)
    → Result (Unit {0}) × Chain D J
    → ChainResponse J × Chain D J
report answer (r, s) = (answer (error_of r), s)

module _ {D J : Type 0} (db : Db D J) where
  -- `ChainInterfaceImpl::new`, for an executor that has run nothing.
  unfoldable pub new_chain : D → Chain D J
  new_chain d = record {
    db = d;
    executor = new_executor;
    chain_state = stored_or_default (db.get_chain_state d);
  }

  unfoldable pub insert_deposit_intent : DepositIntent → Action (Chain D J) (Unit {0})
  insert_deposit_intent intent = do
    modify (λ s. set_chain_state (ChainState.insert_deposit_intent intent s.chain_state) s)
    on_db (db.insert_deposit_intent intent)

  unfoldable pub remove_deposit_intent : DepositIntent → Action (Chain D J) (Unit {0})
  remove_deposit_intent intent = do
    modify (λ s. set_chain_state (ChainState.remove_deposit_intent intent s.chain_state) s)
    on_db (db.remove_deposit_intent intent)

  -- `serialize` of frost's key package, and the system's clock, are arguments.
  unfoldable pub create_genesis_block :
      Codec J
      → {K : Type 0} → (K → Result Bytes)
      → ℕ
      → List ValidatorInfo
      → ChainConfig
      → K
      → Action (Chain D J) (Unit {0})
  create_genesis_block c serialize now validators chain_config pubkey = do
    vault_pub_key ← lift (serialize pubkey)
    on_db (db.insert_block (to_block c (new_genesis now validators chain_config vault_pub_key)))

  -- The part of `finalize_and_store_block` after the loop.
  unfoldable pub store_block : Block J → ChainState J → Action (Chain D J) (Unit {0})
  store_block block new_chain_state = do
    on_db (db.insert_block block)
    on_db (db.flush_state new_chain_state)
    modify (set_chain_state new_chain_state)
    modify (λ s. set_chain_state (ChainState.clear_pending_transactions s.chain_state) s)

  unfoldable pub finalize_and_store_block : Oracle → Block J → Action (Chain D J) (Unit {0})
  unfolding execute_block store_block
  finalize_and_store_block oracle block = do
    before ← gets (λ s. s.chain_state)
    new_chain_state ←
        on_executor
          (execute_block oracle block.body.transactions (ChainState.create_new_chain_state before))
    store_block block new_chain_state

unfoldable pub add_transaction_to_block :
    {D J : Type 0} ⦃e : Eq J⦄ → Transaction J → Action (Chain D J) (Unit {0})
add_transaction_to_block transaction =
    modify (λ s. set_chain_state (ChainState.add_transaction_to_block transaction s.chain_state) s)

module _ {D J : Type 0} ⦃e : Eq J⦄ (c : Codec J) (db : Db D J) (oracle : Oracle) where
  -- main_loop.rs: `handle`, up to the sending of the response.
  unfoldable pub handle :
      {K : Type 0}
      → (K → Result Bytes)
      → ℕ
      → ChainMessage J K
      → Chain D J
      → ChainResponse J × Chain D J
  unfolding insert_deposit_intent remove_deposit_intent create_genesis_block
      add_transaction_to_block finalize_and_store_block
  handle serialize now (ChainMessage.insert_deposit_intent intent) s =
      report ChainResponse.insert_deposit_intent (insert_deposit_intent db intent s)
  handle serialize now (ChainMessage.remove_deposit_intent intent) s =
      report ChainResponse.remove_deposit_intent (remove_deposit_intent db intent s)
  handle serialize now (ChainMessage.get_account address) s =
      (ChainResponse.get_account (ChainState.get_account s.chain_state address), s)
  handle serialize now ChainMessage.get_all_deposit_intents s =
      (ChainResponse.get_all_deposit_intents s.chain_state.deposit_intents, s)
  handle serialize now (ChainMessage.get_deposit_intent_by_address address) s = (
    ChainResponse.get_deposit_intent_by_address
        (ChainState.get_deposit_intent_by_address s.chain_state address),
    s,
  )
  handle serialize now (ChainMessage.create_genesis_block validators chain_config pubkey) s =
      report ChainResponse.create_genesis_block
        (create_genesis_block db c serialize now validators chain_config pubkey s)
  handle serialize now (ChainMessage.add_transaction_to_block transaction) s =
      report ChainResponse.add_transaction_to_block (add_transaction_to_block transaction s)
  handle serialize now (ChainMessage.get_proposed_block previous_block proposer) s = (
    ChainResponse.get_proposed_block
        (ChainState.get_proposed_block c previous_block proposer s.chain_state),
    s,
  )
  handle serialize now (ChainMessage.finalize_block block) s =
      report ChainResponse.finalize_and_store_block (finalize_and_store_block db oracle block s)
  handle serialize now ChainMessage.get_pending_transactions s =
      (ChainResponse.get_pending_transactions s.chain_state.proposed_transactions, s)
  handle serialize now ChainMessage.get_chain_state s =
      (ChainResponse.get_chain_state s.chain_state, s)
  handle serialize now ChainMessage.get_chain_info s = (
    ChainResponse.get_chain_info s.chain_state.block_height
        (length s.chain_state.proposed_transactions),
    s,
  )

-- ===== src/Abci/Interface/Pending.antt =====
-- The pending transactions of a node's chain (crates/abci/src/lib.rs, main_loop.rs) over all its runs: messages
-- one after the other, and restarts from the database, after each of them.
use threshold.Prelude.{
  ℕ, ◌≡◌, refl, arith, ◌⊎◌, inl, inr, some, List, [], Bytes, Eq, Distinct, Result, ok, err,
  Result-cases, then_do,
}
use threshold.Protocol.Codec.{Codec}
use threshold.Protocol.Transaction.{Transaction, transaction_eq}
use threshold.Protocol.Block.{Block, ValidatorInfo, ChainConfig}
use threshold.Abci.ChainState.{ChainState, DepositIntent, create_new_chain_state, empty}
use threshold.Abci.ChainState
use threshold.Abci.ChainState.Agreement.{add_transaction_to_block-Distinct}
use threshold.Abci.Executor.{Oracle, Executor}
use threshold.Abci.Db.{Db}
use threshold.Abci.Messages.{ChainMessage}
use threshold.Abci.Interface.{
  Chain, handle, new_chain, store_block, execute_block, finalize_and_store_block,
  insert_deposit_intent, remove_deposit_intent, create_genesis_block, add_transaction_to_block,
  stored_or_default,
}
use threshold.Abci.Interface.Finalize.{
  finalize_fails_whole, finalize_advances, execute_block-SameChain,
}

-- What a run relies on in its database: a write that is not of the state leaves the state that is stored, and
-- `flush_state` leaves it or puts the new one in its place, also when they fail.
pub record KeepsState {D J : Type 0} (db : Db D J) : Type 0 where
  pub block_keeps :
      (b : Block J) (d : D) → db.get_chain_state (db.insert_block b d).1 ≡ db.get_chain_state d
  pub insert_keeps :
      (i : DepositIntent) (d : D)
      → db.get_chain_state (db.insert_deposit_intent i d).1 ≡ db.get_chain_state d
  pub remove_keeps :
      (i : DepositIntent) (d : D)
      → db.get_chain_state (db.remove_deposit_intent i d).1 ≡ db.get_chain_state d
  pub flush_whole :
      (s : ChainState J) (d : D)
      → (db.get_chain_state (db.flush_state s d).1 ≡ ok (some s))
        ⊎ (db.get_chain_state (db.flush_state s d).1 ≡ db.get_chain_state d)

module _ {D J K : Type 0} ⦃e : Eq J⦄ (c : Codec J) (db : Db D J)
    (serialize : K → Result Bytes) where
  -- The chains that a node can have: it starts on a database without pending transactions, handles messages,
  -- and starts again on what the database then holds.
  pub data Reached : Chain D J → Type 0 where
    started :
        (d : D)
        → (stored_or_default (db.get_chain_state d)).proposed_transactions ≡ []
        → Reached (new_chain db d)
    handled :
        (oracle : Oracle) (now : ℕ) (message : ChainMessage J K) {s : Chain D J}
        → Reached s
        → Reached (handle c db oracle serialize now message s).1
    restarted : {s : Chain D J} → Reached s → Reached (new_chain db s.db)

module _ {D J : Type 0} ⦃e : Eq J⦄ (db : Db D J) where
  -- No transaction is pending twice, nor would be after a restart.
  record Good (s : Chain D J) : Type 0 where
    now_distinct : Distinct s.chain_state.proposed_transactions
    stored_distinct : Distinct (stored_or_default (db.get_chain_state s.db)).proposed_transactions

module _ {D J : Type 0} ⦃e : Eq J⦄ (db : Db D J) (laws : KeepsState db) where
  same_state :
      {s t : Chain D J}
      → t.chain_state.proposed_transactions ≡ s.chain_state.proposed_transactions
      → db.get_chain_state t.db ≡ db.get_chain_state s.db
      → Good db s
      → Good db t
  same_state p q g = record {
    now_distinct = rw p g.now_distinct;
    stored_distinct = rw q g.stored_distinct;
  }

  store_block-stored :
      (block : Block J) (t : ChainState J) (s : Chain D J)
      → (db.get_chain_state (store_block db block t s).1.db ≡ ok (some t))
        ⊎ (db.get_chain_state (store_block db block t s).1.db ≡ db.get_chain_state s.db)
  unfolding store_block
  store_block-stored block t s =
      ground (arith, laws.block_keeps block s.db, laws.flush_whole t (db.insert_block block s.db).1)

  insert_deposit_intent-Good :
      (intent : DepositIntent) (s : Chain D J)
      → Good db s
      → Good db (insert_deposit_intent db intent s).1
  unfolding insert_deposit_intent ChainState.insert_deposit_intent
  insert_deposit_intent-Good intent s g = same_state refl (laws.insert_keeps intent s.db) g

  remove_deposit_intent-Good :
      (intent : DepositIntent) (s : Chain D J)
      → Good db s
      → Good db (remove_deposit_intent db intent s).1
  unfolding remove_deposit_intent ChainState.remove_deposit_intent
  remove_deposit_intent-Good intent s g = same_state refl (laws.remove_keeps intent s.db) g

  add_transaction_to_block-Good :
      (tx : Transaction J) (s : Chain D J) → Good db s → Good db (add_transaction_to_block tx s).1
  unfolding add_transaction_to_block
  add_transaction_to_block-Good tx s g = record {
    now_distinct = add_transaction_to_block-Distinct tx s.chain_state g.now_distinct;
    stored_distinct = g.stored_distinct;
  }

  create_genesis_block-Good :
      (c : Codec J) {K : Type 0} (serialize : K → Result Bytes) (now : ℕ)
      (validators : List ValidatorInfo) (chain_config : ChainConfig) (pubkey : K) (s : Chain D J)
      → Good db s
      → Good db (create_genesis_block db c serialize now validators chain_config pubkey s).1
  unfolding create_genesis_block
  create_genesis_block-Good c serialize now validators chain_config pubkey s g =
      elim (Result-cases (serialize pubkey)) [
        | inl (key, done) ↦ same_state (rw done refl) (rw done (laws.block_keeps _ s.db)) g
        | inr (x, failed) ↦ same_state (rw failed refl) (rw failed refl) g
      ]

  -- What is stored after a block is finalized, or is not.
  finalize-stored :
      (oracle : Oracle) (block : Block J) (s : Chain D J) (r : Result (ChainState J))
      (e' : Executor J)
      → ((t : ChainState J)
          → r ≡ ok t
          → t.proposed_transactions ≡ s.chain_state.proposed_transactions)
      → Good db s
      → let after = (then_do (r, record s { executor = e' }) (store_block db block)).1 in
        Distinct (stored_or_default (db.get_chain_state after.db)).proposed_transactions
  finalize-stored oracle block s (err x) e' h g = g.stored_distinct
  finalize-stored oracle block s (ok t) e' h g =
      elim (store_block-stored block t (record s { executor = e' })) [
        | inl new ↦ rw (new, h t refl) g.now_distinct
        | inr old ↦ rw old g.stored_distinct
      ]

  finalize-pending :
      (oracle : Oracle) (block : Block J) (s : Chain D J)
      → Distinct s.chain_state.proposed_transactions
      → Distinct (finalize_and_store_block db oracle block s).1.chain_state.proposed_transactions
  finalize-pending oracle block s g =
      elim (Result-cases (finalize_and_store_block db oracle block s).0) [
        | inl (u, done) ↦ rw (finalize_advances db oracle block s done).1 tt
        | inr (x, failed) ↦ rw (finalize_fails_whole db oracle block s failed) g
      ]

  finalize_and_store_block-Good :
      (oracle : Oracle) (block : Block J) (s : Chain D J)
      → Good db s
      → Good db (finalize_and_store_block db oracle block s).1
  unfolding finalize_and_store_block create_new_chain_state
  finalize_and_store_block-Good oracle block s g =
      let start = create_new_chain_state s.chain_state in
      let (r, e') = execute_block oracle block.body.transactions start s.executor in
      record {
        now_distinct = finalize-pending oracle block s g.now_distinct;
        stored_distinct =
            finalize-stored oracle block s r e'
              (λ t ran.
                (execute_block-SameChain oracle block.body.transactions start s.executor
                  ran).same_pending)
              g;
      }

  handle-Good :
      (c : Codec J) {K : Type 0} (serialize : K → Result Bytes) (oracle : Oracle) (now : ℕ)
      (message : ChainMessage J K) (s : Chain D J)
      → Good db s
      → Good db (handle c db oracle serialize now message s).1
  unfolding handle
  handle-Good c serialize oracle now (ChainMessage.insert_deposit_intent intent) s g =
      insert_deposit_intent-Good intent s g
  handle-Good c serialize oracle now (ChainMessage.remove_deposit_intent intent) s g =
      remove_deposit_intent-Good intent s g
  handle-Good c serialize oracle now (ChainMessage.create_genesis_block vs config pubkey) s g =
      create_genesis_block-Good c serialize now vs config pubkey s g
  handle-Good c serialize oracle now (ChainMessage.add_transaction_to_block tx) s g =
      add_transaction_to_block-Good tx s g
  handle-Good c serialize oracle now (ChainMessage.finalize_block block) s g =
      finalize_and_store_block-Good oracle block s g
  handle-Good c serialize oracle now _ s g = g

module _ {D J K : Type 0} ⦃e : Eq J⦄ {c : Codec J} {db : Db D J} {serialize : K → Result Bytes}
    (laws : KeepsState db) where
  Reached-Good : {s : Chain D J} → Reached c db serialize s → Good db s
  unfolding new_chain
  Reached-Good (started d none_pending) = record {
    now_distinct = rw none_pending tt;
    stored_distinct = rw none_pending tt;
  }
  Reached-Good (handled oracle now message {s} r) =
      handle-Good db laws c serialize oracle now message s (Reached-Good r)
  Reached-Good (restarted {s} r) = record {
    now_distinct = (Reached-Good r).stored_distinct;
    stored_distinct = (Reached-Good r).stored_distinct;
  }

  -- If only flush_state changes the state that the database holds, and leaves the old one or the new one: a
  -- node that starts with no pending transactions never has one pending twice, whatever messages its chain
  -- handles and however often it restarts from its database in between.
  pub handle-Distinct :
      {s : Chain D J} → Reached c db serialize s → Distinct s.chain_state.proposed_transactions
  handle-Distinct r = (Reached-Good r).now_distinct

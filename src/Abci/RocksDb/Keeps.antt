-- ===== src/Abci/RocksDb/Keeps.antt =====
-- crates/abci/src/db/rocksdb.rs: which writes leave the stored state of the chain, also when they fail.
use threshold.Prelude.{
  ◌≡◌, refl, ap, ◌∙◌, inl, inr, nat_eq, list_eq, Bytes, Result, ok, err, Result-cases, then_do,
  NodeError, and_then,
}
use threshold.Prelude.Moves.{Preorder, Moves, moves_rules}
use threshold.Protocol.Codec.{Codec}
use threshold.Protocol.Block.{Block}
use threshold.Abci.ChainState.{DepositIntent}
use threshold.Abci.RocksDb.{
  blocks_cf, chain_state_cf, deposit_intents_cf, Rocks, Formats, current_key, get_chain_state,
  insert_chain_state, insert_block, insert_deposit_intent, remove_deposit_intent, flush_state,
  rocks_db, stored_state,
}
use threshold.Abci.RocksDb.Contents.{Stores, Faithful}
use threshold.Abci.RocksDb.Refines.{flush_state-reads_back}
use threshold.Abci.Interface.Pending.{KeepsState}

-- The bytes of the stored state are the same.
abbrev SameState : {S : Type 0} → Rocks S → S → S → Type 0
SameState rocks d d' =
    rocks.get_cf chain_state_cf current_key d' ≡ rocks.get_cf chain_state_cf current_key d

-- What the crate rocksdb owes: a write leaves the other families, and one that fails leaves all.
pub record Isolates {S : Type 0} (rocks : Rocks S) : Type 0 where
  pub put_block_family : (k v : Bytes) (d : S) → SameState rocks d (rocks.put_cf blocks_cf k v d).1
  pub put_intent_family :
      (k v : Bytes) (d : S) → SameState rocks d (rocks.put_cf deposit_intents_cf k v d).1
  pub delete_intent_family :
      (k : Bytes) (d : S) → SameState rocks d (rocks.delete_cf deposit_intents_cf k d).1
  pub failed_put :
      (k v : Bytes) (d : S) {x : NodeError}
      → (rocks.put_cf chain_state_cf k v d).0 ≡ err x
      → SameState rocks d (rocks.put_cf chain_state_cf k v d).1

module _ {S J : Type 0} (rocks : Rocks S) (f : Formats J) (c : Codec J)
    (laws : Isolates rocks) where
  SameState-preorder : Preorder (SameState rocks)
  SameState-preorder = record { stay = λ d. refl; chain = λ d e g h k. k ∙ h }

  put_block-SameState : (k v : Bytes) → Moves (SameState rocks) (rocks.put_cf blocks_cf k v)
  put_block-SameState k v = record { at = laws.put_block_family k v }

  put_intent-SameState :
      (k v : Bytes) → Moves (SameState rocks) (rocks.put_cf deposit_intents_cf k v)
  put_intent-SameState k v = record { at = laws.put_intent_family k v }

  delete_intent-SameState :
      (k : Bytes) → Moves (SameState rocks) (rocks.delete_cf deposit_intents_cf k)
  delete_intent-SameState k = record { at = laws.delete_intent_family k }

  ruleset same_state_rules = (
    moves_rules, SameState-preorder, put_block-SameState, put_intent-SameState,
    delete_intent-SameState,
  )

  insert_block-SameState : (b : Block J) → Moves (SameState rocks) (insert_block rocks f c b)
  unfolding insert_block
  insert_block-SameState b = search same_state_rules depth 12

  insert_deposit_intent-SameState :
      (i : DepositIntent) → Moves (SameState rocks) (insert_deposit_intent rocks f i)
  unfolding insert_deposit_intent
  insert_deposit_intent-SameState i = search same_state_rules depth 12

  remove_deposit_intent-SameState :
      (i : DepositIntent) → Moves (SameState rocks) (remove_deposit_intent rocks f i)
  unfolding remove_deposit_intent
  remove_deposit_intent-SameState i = search same_state_rules depth 12

  state_kept :
      (d d' : S) → SameState rocks d d' → get_chain_state rocks f d' ≡ get_chain_state rocks f d
  unfolding get_chain_state
  state_kept d d' h = ap (λ found. and_then found (stored_state rocks f)) h

  failed_flush :
      (d : S) (r : Result Bytes) {x : NodeError}
      → (then_do (r, d) (rocks.put_cf chain_state_cf current_key)).0 ≡ err x
      → SameState rocks d (then_do (r, d) (rocks.put_cf chain_state_cf current_key)).1
  failed_flush d (ok bs) h = laws.failed_put current_key bs d h
  failed_flush d (err y) h = refl

  -- `RocksDb` keeps its state, as a run of the chain relies on.
  pub rocks_db-KeepsState : Stores rocks → Faithful f c → KeepsState (rocks_db rocks f c)
  unfolding flush_state insert_chain_state
  rocks_db-KeepsState stores faithful = record {
    block_keeps = λ b d. state_kept d _ ((insert_block-SameState b).at d);
    insert_keeps = λ i d. state_kept d _ ((insert_deposit_intent-SameState i).at d);
    remove_keeps = λ i d. state_kept d _ ((remove_deposit_intent-SameState i).at d);
    flush_whole = λ s d. elim (Result-cases (insert_chain_state rocks f s d).0) [
      | inl (u, done) ↦ inl (flush_state-reads_back stores faithful s d done)
      | inr (x, failed) ↦
          inr (state_kept d _ (failed_flush d (f.state_form.encode_to_vec s) failed))
    ];
  }

-- ===== src/Abci/Interface/Finalize.antt =====
-- Finalizing a block: all or nothing for the chain's state, and what a restart reads back.
use threshold.Prelude.{
  ◌≡◌, ap, refl, ◌∙◌, arith, some, List, [], ◌∷◌, Result, ok, err, NodeError, then_do, add64,
}
use threshold.Protocol.Transaction.{Transaction}
use threshold.Protocol.Block.{Block}
use threshold.Abci.ChainState.{ChainState, create_new_chain_state, clear_pending_transactions}
use threshold.Abci.Executor.{Oracle, Executor, execute_transaction}
use threshold.Abci.Executor.Frame.{SameChain, SameChain-trans, execute_transaction-SameChain}
use threshold.Abci.Db.{Db}
use threshold.Abci.Interface.{
  Chain, execute_block, finalize_and_store_block, new_chain, store_block,
}

module _ {J : Type 0} where
  then_block :
      (oracle : Oracle) (txs : List (Transaction J)) (s : ChainState J) (r : Result (ChainState J))
      (e : Executor J) {t : ChainState J}
      → ((s' : ChainState J) → r ≡ ok s' → SameChain s s')
      → ((s' : ChainState J) → (execute_block oracle txs s' e).0 ≡ ok t → SameChain s' t)
      → (then_do (r, e) (execute_block oracle txs)).0 ≡ ok t
      → SameChain s t
  then_block oracle txs s (ok a) e {t} h k p = SameChain-trans s a t (h a refl) (k a p)
  then_block oracle txs s (err x) e h k p = absurd (cc)

  pub execute_block-SameChain :
      (oracle : Oracle) (txs : List (Transaction J)) (s : ChainState J) (e : Executor J)
      {t : ChainState J}
      → (execute_block oracle txs s e).0 ≡ ok t
      → SameChain s t
  unfolding execute_block
  execute_block-SameChain oracle [] s e h = ground arith
  execute_block-SameChain oracle (tx ∷ txs) s e h =
      let (r, e') = execute_transaction oracle tx s e in
      then_block oracle txs s r e' (λ s' p. execute_transaction-SameChain oracle tx s e p)
        (λ s' p. execute_block-SameChain oracle txs s' e' p) h

-- What a database owes for `flush_state`: the state that it took is the state that it gives back.
abbrev pub FlushReadsBack : {D J : Type 0} → Db D J → Type 0
FlushReadsBack {D} {J} db =
    (s : ChainState J) (d : D)
    → (db.flush_state s d).0 ≡ ok tt
    → db.get_chain_state (db.flush_state s d).1 ≡ ok (some s)

module _ {D J : Type 0} (db : Db D J) where
  store_block-chain_state :
      (block : Block J) (t : ChainState J) (c : Chain D J)
      → (store_block db block t c).0 ≡ ok tt
      → (store_block db block t c).1.chain_state ≡ clear_pending_transactions t
  unfolding store_block
  store_block-chain_state block t c h = ground arith

  store_block-fails :
      (block : Block J) (t : ChainState J) (c : Chain D J) {e : NodeError}
      → (store_block db block t c).0 ≡ err e
      → (store_block db block t c).1.chain_state ≡ c.chain_state
  unfolding store_block
  store_block-fails block t c h = ground arith

  store_block-flushes :
      (block : Block J) (t : ChainState J) (c : Chain D J)
      → FlushReadsBack db
      → (store_block db block t c).0 ≡ ok tt
      → db.get_chain_state (store_block db block t c).1.db ≡ ok (some t)
  unfolding store_block
  store_block-flushes block t c back h = ground (arith, back t (db.insert_block block c.db).1)

  module _ (oracle : Oracle) (block : Block J) (c : Chain D J) where
    -- A finalized block is one whose transactions all ran, and whose result was stored.
    finalize_ran :
        (r : Result (ChainState J)) (e : Executor J)
        → (then_do (r, record c { executor = e }) (store_block db block)).0 ≡ ok tt
        → (t : ChainState J) × (r ≡ ok t)
          × ((store_block db block t (record c { executor = e })).0 ≡ ok tt)
          × ((then_do (r, record c { executor = e }) (store_block db block)).1
              ≡ (store_block db block t (record c { executor = e })).1)
    finalize_ran (ok t) e h = (t, refl, h, refl)
    finalize_ran (err x) e h = absurd (cc)

    finalize_stopped :
        (r : Result (ChainState J)) (e : Executor J) {x : NodeError}
        → (then_do (r, record c { executor = e }) (store_block db block)).0 ≡ err x
        → (then_do (r, record c { executor = e }) (store_block db block)).1.chain_state
          ≡ c.chain_state
    finalize_stopped (ok t) e h = store_block-fails block t (record c { executor = e }) h
    finalize_stopped (err x) e h = refl

    -- A block that cannot be finalized leaves the chain's state, its pending transactions with it, as
    -- it was.
    pub finalize_fails_whole :
        {x : NodeError}
        → (finalize_and_store_block db oracle block c).0 ≡ err x
        → (finalize_and_store_block db oracle block c).1.chain_state ≡ c.chain_state
    unfolding finalize_and_store_block
    finalize_fails_whole h =
        let (r, e) =
          execute_block oracle block.body.transactions (create_new_chain_state c.chain_state)
            c.executor in
        finalize_stopped r e h

    -- A finalized block raises the height by one, clears the pending transactions and keeps the
    -- deposit intents.
    pub finalize_advances :
        (finalize_and_store_block db oracle block c).0 ≡ ok tt
        → let s' = (finalize_and_store_block db oracle block c).1.chain_state in
          (s'.block_height ≡ add64 c.chain_state.block_height 1)
          × (s'.proposed_transactions ≡ [])
          × (s'.deposit_intents ≡ c.chain_state.deposit_intents)
    unfolding finalize_and_store_block create_new_chain_state clear_pending_transactions
    finalize_advances h =
        let start = create_new_chain_state c.chain_state in
        let (r, e) = execute_block oracle block.body.transactions start c.executor in
        let (t, ran, stored, same) = finalize_ran r e h in
        let frame = execute_block-SameChain oracle block.body.transactions start c.executor ran in
        let final = store_block-chain_state block t (record c { executor = e }) stored in
        rw (ap (λ (d : Chain D J). d.chain_state) same ∙ final)
          (frame.same_height, refl, frame.same_intents)

    -- The state that the database holds after a finalized block still lists the transactions that
    -- were pending before it: a node that restarts from that database has them pending again.
    pub finalize-restart :
        FlushReadsBack db
        → (finalize_and_store_block db oracle block c).0 ≡ ok tt
        → (new_chain db (finalize_and_store_block db oracle block c).1.db
            ).chain_state.proposed_transactions
          ≡ c.chain_state.proposed_transactions
    unfolding finalize_and_store_block create_new_chain_state new_chain
    finalize-restart back h =
        let start = create_new_chain_state c.chain_state in
        let (r, e) = execute_block oracle block.body.transactions start c.executor in
        let (t, ran, stored, same) = finalize_ran r e h in
        let frame = execute_block-SameChain oracle block.body.transactions start c.executor ran in
        rw
          (
            ap (λ (d : Chain D J). d.db) same,
            store_block-flushes block t (record c { executor = e }) back stored,
          )
          frame.same_pending

-- ===== src/Node/Deposit/Processed.antt =====
-- crates/node/src/handlers/deposit/create_deposit.rs: a transaction is processed once.
use threshold.Prelude.{
  ◌≡◌, refl, arith, true, Option, none, some, List, [], ◌∷◌, Bytes, Text, ==_refl, nat_eq, list_eq,
  ℕ, Result, ok, err, Action, contains, set_insert, Bool-cases, inl, inr, ◌>>◌,
}
use threshold.Prelude.Moves.{Moves, Preorder, moves_rules, Moves-bind}
use threshold.Protocol.Transaction.{Transaction}
use threshold.Abci.ChainState.{DepositIntent}
use threshold.Types.Network.{World}
use threshold.Wallet.Spend.{BitcoinTransaction, TxOut}
use threshold.Node.{Services, At, on_own, on_wallet, call, logged}
use threshold.Node.Deposit.{
  DepositIntentState, DepositCrates, credit_intent, credit_found, credit_address, credit_outputs,
  broadcast_encoded, broadcast_transaction, insert_pending_deposit_transaction,
}

-- No transaction is forgotten.
record Remembers {w : World} (s t : At DepositIntentState w) : Type 0 where
  pub kept :
      (id : Bytes)
      → contains s.own.processed_txids id ≡ true
      → contains t.own.processed_txids id ≡ true

set_insert-keeps :
    (xs : List Bytes) (x id : Bytes) → contains xs id ≡ true → contains (set_insert x xs) id ≡ true
set_insert-keeps xs x id h = ground arith

module _ {w : World} where
  Remembers-preorder : Preorder (Remembers {w = w})
  Remembers-preorder = record {
    stay = λ s. record { kept = λ id h. h };
    chain = λ s t u p q. record { kept = λ id h. q.kept id (p.kept id h) };
  }

  call-Remembers : {A : Type 0} (m : Action w.Outside A) → Moves (Remembers {w = w}) (call m)
  call-Remembers m = record { at = λ s. record { kept = λ id h. h } }

  logged-Remembers :
      {A : Type 0} (m : Action w.Outside A) → Moves (Remembers {w = w}) (logged (call m))
  logged-Remembers m = record { at = λ s. record { kept = λ id h. h } }

  on_wallet-Remembers :
      {A : Type 0} (m : Action w.Purse A) → Moves (Remembers {w = w}) (on_wallet m)
  on_wallet-Remembers m = record { at = λ s. record { kept = λ id h. h } }

  -- A change of the handler's own state that adds transactions.
  on_own-Remembers :
      (m : Action DepositIntentState (Unit {0}))
      → ((own : DepositIntentState) (id : Bytes)
          → contains own.processed_txids id ≡ true
          → contains (m own).1.processed_txids id ≡ true)
      → Moves (Remembers {w = w}) (on_own m)
  on_own-Remembers m h = record { at = λ s. record { kept = h s.own } }

  ruleset deposit_rules =
      (moves_rules, Remembers-preorder, call-Remembers, logged-Remembers, on_wallet-Remembers)

module _ {w : World} (sv : Services w) (dc : DepositCrates w) where
  broadcast_encoded-own :
      (r : Result Bytes) (s : At DepositIntentState w) → (broadcast_encoded sv dc r s).1.own ≡ s.own
  broadcast_encoded-own (ok bytes) s = refl
  broadcast_encoded-own (err e) s = refl

  broadcast_transaction-own :
      (transaction : Transaction w.Json) (s : At DepositIntentState w)
      → (broadcast_transaction sv dc transaction s).1.own ≡ s.own
  unfolding broadcast_transaction
  broadcast_transaction-own transaction s =
      broadcast_encoded-own (dc.encode_transaction transaction) s

  credit_intent-Remembers :
      (tx : BitcoinTransaction) (value : ℕ) (address : Text) (intent : DepositIntent)
      → Moves Remembers (credit_intent sv dc tx value address intent)
  unfolding credit_intent
  credit_intent-Remembers tx value address intent = record {
    at = λ s. record {
      kept = λ id h. grind (
        arith,
        broadcast_transaction-own,
        set_insert-keeps s.own.processed_txids (sv.compute_txid tx) id h,
      );
    };
  }

  credit_found-Remembers :
      (tx : BitcoinTransaction) (value : ℕ) (address : Text) (found : Option DepositIntent)
      → Moves Remembers (credit_found sv dc tx value address found)
  unfolding credit_found
  credit_found-Remembers tx value address none = search deposit_rules depth 12
  credit_found-Remembers tx value address (some intent) =
      credit_intent-Remembers tx value address intent

  credit_address-Remembers :
      (tx : BitcoinTransaction) (value : ℕ) (address : Option Text)
      → Moves Remembers (credit_address sv dc tx value address)
  unfolding credit_address
  credit_address-Remembers tx value none = search deposit_rules depth 12
  credit_address-Remembers tx value (some address) =
      search (deposit_rules, credit_found-Remembers) depth 12

  credit_outputs-Remembers :
      (tx : BitcoinTransaction) (outputs : List TxOut)
      → Moves Remembers (credit_outputs sv dc tx outputs)
  unfolding credit_outputs
  credit_outputs-Remembers tx [] = search deposit_rules depth 12
  credit_outputs-Remembers tx (output ∷ outputs) =
      Moves-bind Remembers-preorder
        (credit_address sv dc tx output.value (sv.testnet_address output.script_pubkey))
        (λ _. credit_outputs sv dc tx outputs)
        (credit_address-Remembers tx output.value (sv.testnet_address output.script_pubkey))
        (λ _. credit_outputs-Remembers tx outputs)

  processed_again :
      (tx : BitcoinTransaction) (s : At DepositIntentState w)
      → contains s.own.processed_txids (sv.compute_txid tx) ≡ true
      → insert_pending_deposit_transaction sv dc tx s ≡ (ok tt, s)
  unfolding insert_pending_deposit_transaction
  processed_again tx s h = rw h refl

  -- The part after the mark.
  credit_all-Remembers :
      (tx : BitcoinTransaction)
      → Moves Remembers (credit_outputs sv dc tx tx.output >> on_wallet (sv.ingest_external_tx tx))
  credit_all-Remembers tx =
      Moves-bind Remembers-preorder (credit_outputs sv dc tx tx.output)
        (λ _. on_wallet (sv.ingest_external_tx tx)) (credit_outputs-Remembers tx tx.output)
        (λ _. on_wallet-Remembers (sv.ingest_external_tx tx))

  processed :
      (tx : BitcoinTransaction) (s : At DepositIntentState w)
      → contains
          (insert_pending_deposit_transaction sv dc tx s).1.own.processed_txids
          (sv.compute_txid tx)
        ≡ true
  unfolding insert_pending_deposit_transaction
  processed tx s =
      let id = sv.compute_txid tx in
      elim (Bool-cases (contains s.own.processed_txids id)) [
        | inl known ↦ rw known known
        | inr new ↦
            let marked = record s {
              own = record s.own { processed_txids = id ∷ s.own.processed_txids };
            } in
            rw new (((credit_all-Remembers tx).at marked).kept id (ground (arith, ==_refl id)))
      ]

  -- After a transaction is processed, whether that succeeds or fails, processing it again does nothing:
  -- nothing is sent, and neither the node nor its surroundings change.
  pub insert_pending_deposit_transaction-once :
      (tx : BitcoinTransaction) (s : At DepositIntentState w)
      → let s' = (insert_pending_deposit_transaction sv dc tx s).1 in
        insert_pending_deposit_transaction sv dc tx s' ≡ (ok tt, s')
  unfolding insert_pending_deposit_transaction
  insert_pending_deposit_transaction-once tx s =
      processed_again tx (insert_pending_deposit_transaction sv dc tx s).1 (processed tx s)

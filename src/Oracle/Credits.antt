-- ===== src/Oracle/Credits.antt =====
-- The client of Esplora's server (crates/oracle/src/esplora.rs) as the oracle of the executor
-- (crates/abci/src/executor.rs).
use threshold.Prelude.{
  ℕ, ◌+◌, ◌<◌, ◌≡◌, true, some, Bytes, Text, list_eq, nat_eq, ◌==◌, ok, Result, u64_mod,
  if◌then◌else◌, is_utf8,
}
use threshold.Protocol.Transaction.{Metadata, create_deposit_transaction}
use threshold.Abci.ChainState.{ChainState, get_account}
use threshold.Abci.Executor.{Oracle, Executor, execute_transaction, allowance}
use threshold.Abci.Executor.Effects.{account_of, credited, deposit_credits}
use threshold.Oracle.Esplora.{Client, validate_transaction}
use threshold.Oracle.Esplora.Validation.{Pays, validate_transaction_lem}

-- `TransactionExecutorImpl::new` with an `EsploraOracle`
abbrev pub esplora_oracle :
    {T F : Type 0} → Client T F → (txid_from_slice : Bytes → Result Bytes) → Oracle
esplora_oracle client txid_from_slice = record {
  txid_from_slice = txid_from_slice;
  validate_transaction = validate_transaction client;
}

module _ {T F B J : Type 0} (client : Client T F) (txid_from_slice : Bytes → Result Bytes)
    (m : Metadata B J) (s : ChainState J) (e : Executor J) where
  -- Over Esplora, a deposit of a confirmed transaction, of what all its outputs are together worth, is
  -- credited to whatever user it names, whoever the outputs pay, if the amount fits beside the allowance and
  -- beside the balance of that user: the balance is higher by the amount, and no other account changes.
  pub esplora-deposit_credits :
      (tx : B) (user_pubkey : Text) (amount : ℕ) {h : Bytes} (j : Text)
      → amount < u64_mod
      → is_utf8 user_pubkey ≡ true
      → txid_from_slice (m.compute_txid tx) ≡ ok h
      → Pays client amount h
      → allowance e user_pubkey + amount < u64_mod
      → (account_of s user_pubkey).balance + amount < u64_mod
      → let (r, e') =
          execute_transaction
            (esplora_oracle client txid_from_slice)
            (create_deposit_transaction m tx user_pubkey amount)
            s
            e in
        (r ≡ ok e'.new_chain_state)
        × (get_account e'.new_chain_state j ≡ (
            if user_pubkey == j
            then some (credited (account_of s user_pubkey) amount)
            else get_account s j))
  esplora-deposit_credits tx user_pubkey amount {h} j below text read pays fits more =
      let verified = (validate_transaction_lem client user_pubkey amount h).1 pays in
      let (result, account, allowances, stack) =
        deposit_credits m (esplora_oracle client txid_from_slice) s e tx user_pubkey amount j below
          text read verified fits more in
      (result, account)

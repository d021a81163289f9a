-- ===== src/Abci/Executor/Value.antt =====
-- Value in the executor: what the accounts hold and what the allowance list still grants.
use threshold.Prelude.{ℕ, ◌+◌, ◌-◌, ◌≤◌, ◌≡◌, arith, Text, list_eq, nat_eq}
use threshold.Prelude.Dict.{insert, total, measure_at, total-insert}
use threshold.Abci.ChainState.{Account, ChainState, increment_balance, decrement_balance}
use threshold.Abci.Executor.{Executor, spend_allowance, debit, account_or_new, allowance}

abbrev pub balances : {J : Type 0} → ChainState J → ℕ
balances s = total (λ (a : Account). a.balance) s.accounts

abbrev pub allowances : {J : Type 0} → Executor J → ℕ
allowances e = total (λ (n : ℕ). n) e.allowance_list

abbrev pub value : {J : Type 0} → Executor J → ℕ
value e = balances e.new_chain_state + allowances e

abbrev pub balance_at : {J : Type 0} → Executor J → Text → ℕ
balance_at e address = measure_at (λ (a : Account). a.balance) address e.new_chain_state.accounts

module _ {J : Type 0} where
  pub account_or_new-balance :
      (e : Executor J) (address : Text) → (account_or_new e address).balance ≡ balance_at e address
  account_or_new-balance e address = ground arith

  pub allowance-measure_at :
      (e : Executor J) (address : Text)
      → allowance e address ≡ measure_at (λ (n : ℕ). n) address e.allowance_list
  allowance-measure_at e address = ground arith

  -- Writing an account changes the balances by the difference at its address.
  pub balances-upsert :
      (address : Text) (a : Account) (e : Executor J)
      → total (λ (b : Account). b.balance) (insert address a e.new_chain_state.accounts)
          + (account_or_new e address).balance
        ≡ balances e.new_chain_state + a.balance
  balances-upsert address a e = omega (
    arith,
    account_or_new-balance e address,
    total-insert (λ (b : Account). b.balance) address a e.new_chain_state.accounts,
  )

  pub allowances-set :
      (address : Text) (n : ℕ) (e : Executor J)
      → total (λ (m : ℕ). m) (insert address n e.allowance_list) + allowance e address
        ≡ allowances e + n
  allowances-set address n e = omega (
    arith,
    allowance-measure_at e address,
    total-insert (λ (m : ℕ). m) address n e.allowance_list,
  )

  pub value-spend_allowance :
      (address : Text) (amount : ℕ) (e : Executor J)
      → amount ≤ allowance e address
      → value (spend_allowance address amount e) ≤ value e
  unfolding spend_allowance
  value-spend_allowance address amount e h = omega (
    arith,
    balances-upsert address (increment_balance (account_or_new e address) amount) e,
    allowances-set address (allowance e address - amount) e,
  )

  pub value-debit :
      (address : Text) (amount : ℕ) (e : Executor J) → value (debit address amount e) ≤ value e
  unfolding debit
  value-debit address amount e =
      omega (arith, balances-upsert address (decrement_balance (account_or_new e address) amount) e)

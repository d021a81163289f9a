-- ===== src/Abci/Executor/Effects.antt =====
-- What a deposit and a withdrawal do, to the last field.
use threshold.Prelude.{
  ℕ, ◌+◌, ◌-◌, ◌≤◌, ◌<◌, ◌≡◌, refl, sym, ◌%◌, true, false, some, ◌∷◌, arith, Bytes, Text, list_eq,
  nat_eq, ◌==◌, ==_iff, ok, err, error, add64, u64_mod, if◌then◌else◌, is_utf8, from_utf8-is_utf8,
  from_be_bytes-to_be_bytes,
}
use threshold.Prelude.Dict.{lookup, insert, lookup-insert, lookup-insert_self, unwrap_or}
use threshold.Protocol.Transaction.{
  Metadata, create_deposit_transaction, create_withdrawal_transaction,
}
use threshold.Abci.ChainState.{
  Account, ChainState, get_account, increment_balance, decrement_balance,
}
use threshold.Abci.Executor.{Oracle, Executor, execute_transaction, allowance, pushed_one}

-- The account of an address, or a new one without balance.
abbrev pub account_of : {J : Type 0} → ChainState J → Text → Account
account_of s address = unwrap_or (get_account s address) (record { address = address; balance = 0 })

-- The account with the amount more, and with the amount less, as numbers.
abbrev pub credited : Account → ℕ → Account
credited a amount = record { address = a.address; balance = a.balance + amount }

abbrev pub debited : Account → ℕ → Account
debited a amount = record { address = a.address; balance = a.balance - amount }

increment_balance-credited :
    (a : Account) (amount : ℕ)
    → a.balance + amount < u64_mod
    → increment_balance a amount ≡ credited a amount
unfolding increment_balance
increment_balance-credited a amount h =
    let exact : (a.balance + amount) % u64_mod ≡ a.balance + amount = omega arith in rw exact refl

decrement_balance-debited :
    (a : Account) (amount : ℕ) → decrement_balance a amount ≡ debited a amount
unfolding decrement_balance
decrement_balance-debited a amount = refl

module _ {B J : Type 0} (m : Metadata B J) (oracle : Oracle) (s : ChainState J)
    (e : Executor J) where
  -- A deposit that the oracle verifies, whose amount fits beside the allowance and beside the balance of
  -- its user, succeeds: the balance of the user's account is higher by the amount, every other account
  -- and every allowance is as it was, and two results are left on the stack.
  pub deposit_credits :
      (tx : B) (user_pubkey : Text) (amount : ℕ) {h : Bytes} (j : Text)
      → amount < u64_mod
      → is_utf8 user_pubkey ≡ true
      → oracle.txid_from_slice (m.compute_txid tx) ≡ ok h
      → oracle.validate_transaction user_pubkey amount h ≡ ok true
      → allowance e user_pubkey + amount < u64_mod
      → (account_of s user_pubkey).balance + amount < u64_mod
      → let (r, e') =
          execute_transaction oracle (create_deposit_transaction m tx user_pubkey amount) s e in
        (r ≡ ok e'.new_chain_state)
        × (get_account e'.new_chain_state j ≡ (
            if user_pubkey == j
            then some (credited (account_of s user_pubkey) amount)
            else get_account s j))
        × (allowance e' j ≡ allowance e j)
        × (e'.stack ≡ pushed_one ∷ pushed_one ∷ e.stack)
  unfolding execute_transaction create_deposit_transaction
  deposit_credits tx pk n j p u a v w b = (
    ground (arith, from_be_bytes-to_be_bytes n p, from_utf8-is_utf8 pk u, granted),
    ground (arith, from_be_bytes-to_be_bytes n p, from_utf8-is_utf8 pk u, granted, paid),
    ground (
      arith,
      from_be_bytes-to_be_bytes n p,
      from_utf8-is_utf8 pk u,
      granted,
      spent,
      regranted,
      ==_iff pk j,
    ),
    ground (arith, from_be_bytes-to_be_bytes n p, from_utf8-is_utf8 pk u, granted),
  )
    where
      more : ℕ
      more = add64 (allowance e pk) n

      granted : lookup pk (insert pk more e.allowance_list) ≡ some more
      granted = lookup-insert_self pk more e.allowance_list

      regranted :
          lookup j (insert pk more e.allowance_list)
          ≡ (if pk == j then some more else lookup j e.allowance_list)
      regranted = lookup-insert pk j more e.allowance_list

      spent :
          lookup j (insert pk (more - n) (insert pk more e.allowance_list))
          ≡ (if pk == j then some (more - n) else lookup j (insert pk more e.allowance_list))
      spent = lookup-insert pk j (more - n) (insert pk more e.allowance_list)

      paid :
          lookup j (insert pk (increment_balance (account_of s pk) n) s.accounts)
          ≡ (if pk == j then some (credited (account_of s pk) n) else lookup j s.accounts)
      paid =
          rw (sym (increment_balance-credited (account_of s pk) n b))
            (lookup-insert pk j (increment_balance (account_of s pk) n) s.accounts)

  -- A deposit that the oracle does not verify, for a user whose allowance is below the amount, is
  -- refused, and the accounts and the allowances are as they were.
  pub deposit_unverified :
      (tx : B) (user_pubkey : Text) (amount : ℕ) {h : Bytes}
      → amount < u64_mod
      → is_utf8 user_pubkey ≡ true
      → oracle.txid_from_slice (m.compute_txid tx) ≡ ok h
      → oracle.validate_transaction user_pubkey amount h ≡ ok false
      → allowance e user_pubkey < amount
      → let (r, e') =
          execute_transaction oracle (create_deposit_transaction m tx user_pubkey amount) s e in
        (r ≡ err (error "Insufficient allowance"))
        × (e'.new_chain_state ≡ s)
        × (e'.allowance_list ≡ e.allowance_list)
  unfolding execute_transaction create_deposit_transaction
  deposit_unverified tx pk n p u a v w =
      ground (arith, from_be_bytes-to_be_bytes n p, from_utf8-is_utf8 pk u)

  -- A withdrawal that the balance covers succeeds: the balance of the user's account is lower by the
  -- amount, every other account and the allowances are as they were, and one result is left on the stack.
  pub withdrawal_debits :
      (user_pubkey address_to : Text) (amount : ℕ) (j : Text)
      → amount < u64_mod
      → is_utf8 user_pubkey ≡ true
      → amount ≤ (account_of s user_pubkey).balance
      → let (r, e') =
          execute_transaction oracle
            (create_withdrawal_transaction m user_pubkey address_to amount)
            s
            e in
        (r ≡ ok e'.new_chain_state)
        × (get_account e'.new_chain_state j ≡ (
            if user_pubkey == j
            then some (debited (account_of s user_pubkey) amount)
            else get_account s j))
        × (e'.allowance_list ≡ e.allowance_list)
        × (e'.stack ≡ pushed_one ∷ e.stack)
  unfolding execute_transaction create_withdrawal_transaction
  withdrawal_debits pk to n j p u a = (
    ground (arith, from_be_bytes-to_be_bytes n p, from_utf8-is_utf8 pk u),
    ground (
      arith,
      from_be_bytes-to_be_bytes n p,
      from_utf8-is_utf8 pk u,
      decrement_balance-debited (account_of s pk) n,
      lookup-insert pk j (decrement_balance (account_of s pk) n) s.accounts,
    ),
    ground (arith, from_be_bytes-to_be_bytes n p, from_utf8-is_utf8 pk u),
    ground (arith, from_be_bytes-to_be_bytes n p, from_utf8-is_utf8 pk u),
  )

  -- A withdrawal of more than the balance is refused: the accounts, the allowances and the stack
  -- are as they were.
  pub withdrawal_overdraft :
      (user_pubkey address_to : Text) (amount : ℕ)
      → amount < u64_mod
      → is_utf8 user_pubkey ≡ true
      → (account_of s user_pubkey).balance < amount
      → let (r, e') =
          execute_transaction oracle
            (create_withdrawal_transaction m user_pubkey address_to amount)
            s
            e in
        (r ≡ err (error "Insufficient balance"))
        × (e'.new_chain_state ≡ s)
        × (e'.allowance_list ≡ e.allowance_list)
        × (e'.stack ≡ e.stack)
  unfolding execute_transaction create_withdrawal_transaction
  withdrawal_overdraft pk to n p u a =
      ground (arith, from_be_bytes-to_be_bytes n p, from_utf8-is_utf8 pk u)

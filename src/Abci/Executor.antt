-- ===== src/Abci/Executor.antt =====
-- crates/abci/src/executor.rs: the stack machine that runs a transaction's operations.
pub mod Value
pub mod Backing
pub mod Effects
pub mod Frame
use threshold.Prelude.{
  ℕ, ◌+◌, ◌-◌, ◌≤◌, Bool, true, false, Option, none, some, List, [], ◌∷◌, Bytes, Text, list_eq,
  nat_eq, leb, ltb, add64, if◌then◌else◌, to_be_bytes, from_be_bytes, from_utf8, NodeError, error,
  Result, ok, err, ok_or, Action, pure, lift, gets, modify, fail, ◌>>=◌, ◌>>◌, String,
}
use threshold.Prelude.Dict.{Dict, lookup, insert, unwrap_or}
use threshold.Protocol.Transaction.{Operation, Transaction}
use threshold.Abci.ChainState.{
  Account, ChainState, get_account, upsert_account, increment_balance, decrement_balance, empty,
}

-- What the executor asks of the outside: `Txid::from_slice` of the crate bitcoin, and the method of
-- the trait `Oracle` that looks a deposit up on the Bitcoin network. While one transaction runs the
-- oracle answers the same question alike.
pub record Oracle : Type 0 where
  pub txid_from_slice : Bytes → Result Bytes
  pub validate_transaction : Text → ℕ → Bytes → Result Bool

-- `TransactionExecutorImpl`, less the oracle. The stack's top is the list's head.
pub record Executor (J : Type 0) : Type 0 where
  pub allowance_list : Dict Text ℕ
  pub stack : List Bytes
  pub last_error : Option NodeError
  pub new_chain_state : ChainState J

-- `TransactionExecutorImpl::new`
unfoldable pub new_executor : {J : Type 0} → Executor J
unfolding empty
new_executor = record {
  allowance_list = [];
  stack = [];
  last_error = none;
  new_chain_state = empty;
}

-- The results that the operations push: `1u64` and `0u64` in big-endian bytes.
abbrev pub pushed_one : Bytes
pushed_one = 0 ∷ 0 ∷ 0 ∷ 0 ∷ 0 ∷ 0 ∷ 0 ∷ 1 ∷ []

abbrev pub pushed_zero : Bytes
pushed_zero = 0 ∷ 0 ∷ 0 ∷ 0 ∷ 0 ∷ 0 ∷ 0 ∷ 0 ∷ []

module _ {J : Type 0} where
  unfoldable pub push_to_stack : Bytes → Executor J → Executor J
  push_to_stack value e = record e { stack = value ∷ e.stack }

  abbrev pub pop_of : List Bytes → Executor J → Option Bytes × Executor J
  pop_of [] e = (none, e)
  pop_of (value ∷ rest) e = (some value, record e { stack = rest })

  unfoldable pub pop_from_stack : Executor J → Option Bytes × Executor J
  pop_from_stack e = pop_of e.stack e

  unfoldable pub signal_error : NodeError → Executor J → NodeError × Executor J
  signal_error e s = (e, record s { stack = pushed_zero ∷ s.stack; last_error = some e })

  -- `pop_from_stack().ok_or_else(…)?`
  unfoldable pub pop_or : String → Action (Executor J) Bytes
  unfolding pop_from_stack
  pop_or message e = let (value, e') = pop_from_stack e in (ok_or value message, e')

  abbrev pub allowance : Executor J → Text → ℕ
  allowance e address = unwrap_or (lookup address e.allowance_list) 0

  abbrev pub set_allowance : Text → ℕ → Executor J → Executor J
  set_allowance address amount e = record e {
    allowance_list = insert address amount e.allowance_list;
  }

  -- the account, or a fresh one with no balance
  abbrev pub account_or_new : Executor J → Text → Account
  account_or_new e address =
      unwrap_or (get_account e.new_chain_state address) (record { address = address; balance = 0 })

  abbrev pub set_account : Text → Account → Executor J → Executor J
  set_account address account e = record e {
    new_chain_state = upsert_account address account e.new_chain_state;
  }

  -- The branch after the oracle's answer.
  unfoldable pub credit_verified : Bool → Text → ℕ → Executor J → Executor J
  unfolding push_to_stack
  credit_verified true address amount e =
      push_to_stack pushed_one (set_allowance address (add64 (allowance e address) amount) e)
  credit_verified false address amount e = push_to_stack pushed_zero e

  unfoldable pub op_check_oracle : Oracle → Action (Executor J) (Unit {0})
  unfolding pop_or credit_verified
  op_check_oracle oracle = do
    raw_hash ← pop_or "Missing tx hash"
    tx_hash ← lift (oracle.txid_from_slice raw_hash)
    raw_address ← pop_or "Missing address"
    address ← lift (ok_or (from_utf8 raw_address) "invalid utf-8 sequence")
    raw_amount ← pop_or "Missing amount"
    amount ← lift (ok_or (from_be_bytes raw_amount) "Invalid amount")
    verified ← lift (oracle.validate_transaction address amount tx_hash)
    modify (credit_verified verified address amount)

  -- The rest of `op_increment_balance`, once the allowance covers the amount.
  unfoldable pub spend_allowance : Text → ℕ → Executor J → Executor J
  unfolding push_to_stack increment_balance
  spend_allowance address amount e =
      let e' = set_allowance address (allowance e address - amount) e in
      push_to_stack pushed_one
        (set_account address (increment_balance (account_or_new e' address) amount) e')

  unfoldable pub op_increment_balance : Action (Executor J) (Unit {0})
  unfolding pop_or spend_allowance
  op_increment_balance = do
    raw_address ← pop_or "Missing address"
    raw_amount ← pop_or "Missing amount"
    address ← lift (ok_or (from_utf8 raw_address) "invalid utf-8 sequence")
    amount ← lift (ok_or (from_be_bytes raw_amount) "Invalid amount")
    covered ← gets (λ e. leb amount (allowance e address))
    if covered then modify (spend_allowance address amount) else fail "Insufficient allowance"

  -- The rest of `op_decrement_balance`, once the balance covers the amount.
  unfoldable pub debit : Text → ℕ → Executor J → Executor J
  unfolding push_to_stack decrement_balance
  debit address amount e =
      push_to_stack pushed_one
        (set_account address (decrement_balance (account_or_new e address) amount) e)

  unfoldable pub op_decrement_balance : Action (Executor J) (Unit {0})
  unfolding pop_or debit
  op_decrement_balance = do
    raw_address ← pop_or "Missing address"
    raw_amount ← pop_or "Missing amount"
    address ← lift (ok_or (from_utf8 raw_address) "invalid utf-8 sequence")
    amount ← lift (ok_or (from_be_bytes raw_amount) "Invalid amount")
    short ← gets (λ e. ltb (account_or_new e address).balance amount)
    if short then fail "Insufficient balance" else modify (debit address amount)

  unfoldable pub execute_operation : Oracle → Operation → Action (Executor J) (Unit {0})
  unfolding push_to_stack op_check_oracle op_increment_balance op_decrement_balance
  execute_operation oracle (Operation.op_push value) = modify (push_to_stack value)
  execute_operation oracle Operation.op_check_oracle = op_check_oracle oracle
  execute_operation oracle Operation.op_increment_balance = op_increment_balance
  execute_operation oracle Operation.op_decrement_balance = op_decrement_balance

  -- The loop ends at the first operation that fails.
  unfoldable pub execute_operations : Oracle → List Operation → Action (Executor J) (Unit {0})
  unfolding execute_operation
  execute_operations oracle [] = pure tt
  execute_operations oracle (op ∷ ops) = do
    execute_operation oracle op
    execute_operations oracle ops

  unfoldable pub execute_transaction :
      Oracle → Transaction J → ChainState J → Action (Executor J) (ChainState J)
  unfolding execute_operations
  execute_transaction oracle transaction chain_state = do
    modify (λ e. record e { new_chain_state = chain_state })
    execute_operations oracle transaction.operations
    gets (λ e. e.new_chain_state)

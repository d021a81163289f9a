-- ===== src/Abci/Executor/Backing.antt =====
-- What the operations of a transaction do to the value that the executor holds.
use threshold.Prelude.{
  ℕ, ◌+◌, ◌≤◌, ◌≡◌, Bool, true, false, List, [], ◌∷◌, arith, Bytes, Text, list_eq, nat_eq, Result,
  ok, err, leb,
}
use threshold.Prelude.{
  String, Action, then_do, ltb, add64, refl, modify, fail, lift, gets, ◌>>=◌, if◌then◌else◌,
}
use threshold.Prelude.Moves.{
  Preorder, Moves, Moves-gets_bind, moves_rules, Moves-lift, Moves-extend,
}
use threshold.Protocol.Transaction.{Operation, Transaction}
use threshold.Abci.ChainState.{ChainState}
use threshold.Abci.Executor.{
  Oracle, Executor, op_check_oracle, op_increment_balance, op_decrement_balance, execute_operation,
  execute_operations, execute_transaction, spend_allowance, debit, credit_verified, account_or_new,
  allowance, pop_or, push_to_stack,
}
use threshold.Abci.Executor.Value.{
  balances, allowances, value, allowances-set, value-spend_allowance, value-debit,
}

-- The executor's value does not grow.
abbrev NoGain : {J : Type 0} → Executor J → Executor J → Type 0
NoGain e e' = value e' ≤ value e

module _ {J : Type 0} where
  NoGain-preorder : Preorder (NoGain {J = J})
  NoGain-preorder = record { stay = λ e. omega arith; chain = λ d e f h k. omega arith }

  pop_or-NoGain : (message : String) → Moves (NoGain {J = J}) (pop_or message)
  unfolding pop_or
  pop_or-NoGain message = record { at = λ e. ground arith }

  push_to_stack-NoGain : (v : Bytes) → Moves (NoGain {J = J}) (modify (push_to_stack v))
  unfolding push_to_stack
  push_to_stack-NoGain v = record { at = λ e. omega arith }

  spend_if_covered :
      (address : Text) (amount : ℕ) (e : Executor J)
      → NoGain e
          ((if leb amount (allowance e address)
              then modify (spend_allowance address amount)
              else fail "Insufficient allowance")
            e).1
  spend_if_covered address amount e = ground (arith, value-spend_allowance address amount e)

  op_increment_balance-NoGain : Moves (NoGain {J = J}) op_increment_balance
  unfolding op_increment_balance
  op_increment_balance-NoGain =
      search (moves_rules, NoGain-preorder, pop_or-NoGain, Moves-gets_bind, spend_if_covered) depth
        12

  debit_if_covered :
      (address : Text) (amount : ℕ) (e : Executor J)
      → NoGain e
          ((if ltb (account_or_new e address).balance amount
              then fail "Insufficient balance"
              else modify (debit address amount))
            e).1
  debit_if_covered address amount e = ground (arith, value-debit address amount e)

  op_decrement_balance-NoGain : Moves (NoGain {J = J}) op_decrement_balance
  unfolding op_decrement_balance
  op_decrement_balance-NoGain =
      search (moves_rules, NoGain-preorder, pop_or-NoGain, Moves-gets_bind, debit_if_covered) depth
        12

-- The executor's value grows by at most `cap`.
abbrev GainsAtMost : {J : Type 0} → ℕ → Executor J → Executor J → Type 0
GainsAtMost cap e e' = value e' ≤ value e + cap

-- What an operation may add: only the oracle's check may add, and not above `cap`.
abbrev pub gain_of : ℕ → Operation → ℕ
gain_of cap Operation.op_check_oracle = cap
gain_of cap _ = 0

abbrev pub gain_of_all : ℕ → List Operation → ℕ
gain_of_all cap [] = 0
gain_of_all cap (op ∷ ops) = gain_of cap op + gain_of_all cap ops

-- Every amount that the oracle verifies is at most `cap`.
abbrev pub VerifiesAtMost : ℕ → Oracle → Type 0
VerifiesAtMost cap oracle =
    (address : Text) (amount : ℕ) (tx_hash : Bytes)
    → oracle.validate_transaction address amount tx_hash ≡ ok true
    → amount ≤ cap

module _ {J : Type 0} (cap : ℕ) where
  then_gains :
      {A B : Type 0} (m : Action (Executor J) A) (f : A → Action (Executor J) B)
      → Moves NoGain m
      → ((a : A) → Moves (GainsAtMost cap) (f a))
      → Moves (GainsAtMost cap) (m >>= f)
  then_gains m f =
      Moves-extend {R = NoGain} {Q = GainsAtMost cap} (λ s t u h k. omega arith) (λ s. omega arith)
        m f

  credit_step :
      (answer : Result Bool) (address : Text) (amount : ℕ)
      → (answer ≡ ok true → amount ≤ cap)
      → Moves
          (GainsAtMost {J = J} cap)
          (lift answer >>= λ verified. modify (credit_verified verified address amount))
  unfolding credit_verified
  credit_step (err e) address amount h = record { at = λ e. omega arith }
  credit_step (ok false) address amount h = record { at = λ e. omega arith }
  credit_step (ok true) address amount h = record {
    at = λ e. omega (arith, h refl, allowances-set address (add64 (allowance e address) amount) e);
  }

  op_check_oracle-gains :
      (oracle : Oracle)
      → VerifiesAtMost cap oracle
      → Moves (GainsAtMost {J = J} cap) (op_check_oracle oracle)
  unfolding op_check_oracle
  op_check_oracle-gains oracle h = then_gains _ _ (pop_or-NoGain _) λ raw_hash.
      then_gains _ _ (Moves-lift NoGain-preorder _) λ tx_hash.
        then_gains _ _ (pop_or-NoGain _) λ raw_address.
          then_gains _ _ (Moves-lift NoGain-preorder _) λ address.
            then_gains _ _ (pop_or-NoGain _) λ raw_amount.
              then_gains _ _ (Moves-lift NoGain-preorder _) λ amount.
                credit_step (oracle.validate_transaction address amount tx_hash) address amount
                  (h address amount tx_hash)

  execute_operation-gains :
      (oracle : Oracle) (op : Operation) (e : Executor J)
      → VerifiesAtMost cap oracle
      → value (execute_operation oracle op e).1 ≤ value e + gain_of cap op
  unfolding execute_operation
  execute_operation-gains oracle (Operation.op_push v) e h =
      omega (arith, (push_to_stack-NoGain v).at e)
  execute_operation-gains oracle Operation.op_check_oracle e h =
      (op_check_oracle-gains oracle h).at e
  execute_operation-gains oracle Operation.op_increment_balance e h =
      omega (arith, op_increment_balance-NoGain.at e)
  execute_operation-gains oracle Operation.op_decrement_balance e h =
      omega (arith, op_decrement_balance-NoGain.at e)

  then_operations :
      (r : Result (Unit {0})) (e : Executor J) (rest : Action (Executor J) (Unit {0})) (n : ℕ)
      → value (rest e).1 ≤ value e + n
      → value (then_do (r, e) (λ _. rest)).1 ≤ value e + n
  then_operations (ok a) e rest n h = h
  then_operations (err x) e rest n h = omega arith

  execute_operations-gains :
      (oracle : Oracle) (ops : List Operation) (e : Executor J)
      → VerifiesAtMost cap oracle
      → value (execute_operations oracle ops e).1 ≤ value e + gain_of_all cap ops
  unfolding execute_operations
  execute_operations-gains oracle [] e h = omega arith
  execute_operations-gains oracle (op ∷ ops) e h =
      let (r, e') = execute_operation oracle op e in
      omega (
        arith,
        execute_operation-gains oracle op e h,
        then_operations r e' (execute_operations oracle ops) (gain_of_all cap ops)
            (execute_operations-gains oracle ops e' h),
      )

value-finish :
    {J : Type 0} (r : Result (Unit {0})) (e : Executor J)
    → value (then_do (r, e) (λ _. gets (λ f. f.new_chain_state))).1 ≡ value e
value-finish (ok a) e = refl
value-finish (err x) e = refl

-- Running a transaction adds to the balances and allowances together at most the largest amount
-- that the oracle verifies, once for each OpCheckOracle among its operations; this holds whether
-- the transaction succeeds or fails.
pub execute_transaction-gains :
    {J : Type 0} (cap : ℕ) (oracle : Oracle) (tx : Transaction J) (s : ChainState J)
    (e : Executor J)
    → VerifiesAtMost cap oracle
    → let (r, e') = execute_transaction oracle tx s e in
      value e' ≤ balances s + allowances e + gain_of_all cap tx.operations
unfolding execute_transaction
execute_transaction-gains cap oracle tx s e h =
    let start = record e { new_chain_state = s } in
    let (r, e') = execute_operations oracle tx.operations start in
    omega (arith, execute_operations-gains cap oracle tx.operations start h, value-finish r e')

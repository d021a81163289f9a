-- ===== src/Abci/Executor/Frame.antt =====
-- What running transactions leaves alone: the deposit intents, the pending transactions and the
-- height of the chain's state.
use threshold.Prelude.{
  ℕ, ◌≡◌, refl, ◌∙◌, Bool, true, false, List, [], ◌∷◌, arith, Bytes, Text, String, Result, ok, err,
  gets, then_do,
}
use threshold.Prelude.Moves.{Preorder, Moves, Moves-bind, moves_rules}
use threshold.Protocol.Transaction.{Operation, Transaction}
use threshold.Abci.ChainState.{ChainState}
use threshold.Abci.Executor.{
  Oracle, Executor, pop_or, push_to_stack, credit_verified, op_check_oracle, spend_allowance,
  op_increment_balance, debit, op_decrement_balance, execute_operation, execute_operations,
  execute_transaction,
}

pub record SameChain {J : Type 0} (s t : ChainState J) : Type 0 where
  pub same_intents : t.deposit_intents ≡ s.deposit_intents
  pub same_pending : t.proposed_transactions ≡ s.proposed_transactions
  pub same_height : t.block_height ≡ s.block_height

abbrev Keeps : {J : Type 0} → Executor J → Executor J → Type 0
Keeps e f = SameChain e.new_chain_state f.new_chain_state

module _ {J : Type 0} where
  pub SameChain-trans : (r s t : ChainState J) → SameChain r s → SameChain s t → SameChain r t
  SameChain-trans r s t h k = record {
    same_intents = k.same_intents ∙ h.same_intents;
    same_pending = k.same_pending ∙ h.same_pending;
    same_height = k.same_height ∙ h.same_height;
  }

  pub SameChain-refl : (s : ChainState J) → SameChain s s
  SameChain-refl s = record { same_intents = refl; same_pending = refl; same_height = refl }

  Keeps-preorder : Preorder (Keeps {J = J})
  Keeps-preorder = record {
    stay = λ e. SameChain-refl e.new_chain_state;
    chain = λ d e f. SameChain-trans d.new_chain_state e.new_chain_state f.new_chain_state;
  }

  pop_or-Keeps : (message : String) → Moves (Keeps {J = J}) (pop_or message)
  unfolding pop_or
  pop_or-Keeps message = record { at = λ e. ground arith }

  push_to_stack-Keeps : (v : Bytes) (e : Executor J) → Keeps e (push_to_stack v e)
  unfolding push_to_stack
  push_to_stack-Keeps v e = SameChain-refl e.new_chain_state

  credit_verified-Keeps :
      (b : Bool) (address : Text) (amount : ℕ) (e : Executor J)
      → Keeps e (credit_verified b address amount e)
  unfolding credit_verified
  credit_verified-Keeps true address amount e = SameChain-refl e.new_chain_state
  credit_verified-Keeps false address amount e = SameChain-refl e.new_chain_state

  spend_allowance-Keeps :
      (address : Text) (amount : ℕ) (e : Executor J) → Keeps e (spend_allowance address amount e)
  unfolding spend_allowance
  spend_allowance-Keeps address amount e = record {
    same_intents = refl;
    same_pending = refl;
    same_height = refl;
  }

  debit-Keeps : (address : Text) (amount : ℕ) (e : Executor J) → Keeps e (debit address amount e)
  unfolding debit
  debit-Keeps address amount e = record {
    same_intents = refl;
    same_pending = refl;
    same_height = refl;
  }

  ruleset keep_rules = (
    moves_rules, Keeps-preorder, pop_or-Keeps, push_to_stack-Keeps, credit_verified-Keeps,
    spend_allowance-Keeps, debit-Keeps,
  )

  op_check_oracle-Keeps : (oracle : Oracle) → Moves (Keeps {J = J}) (op_check_oracle oracle)
  unfolding op_check_oracle
  op_check_oracle-Keeps oracle = search keep_rules depth 20

  op_increment_balance-Keeps : Moves (Keeps {J = J}) op_increment_balance
  unfolding op_increment_balance
  op_increment_balance-Keeps = search keep_rules depth 20

  op_decrement_balance-Keeps : Moves (Keeps {J = J}) op_decrement_balance
  unfolding op_decrement_balance
  op_decrement_balance-Keeps = search keep_rules depth 20

  execute_operation-Keeps :
      (oracle : Oracle) (op : Operation) → Moves (Keeps {J = J}) (execute_operation oracle op)
  unfolding execute_operation
  execute_operation-Keeps oracle (Operation.op_push v) = search keep_rules
  execute_operation-Keeps oracle Operation.op_check_oracle = op_check_oracle-Keeps oracle
  execute_operation-Keeps oracle Operation.op_increment_balance = op_increment_balance-Keeps
  execute_operation-Keeps oracle Operation.op_decrement_balance = op_decrement_balance-Keeps

  execute_operations-Keeps :
      (oracle : Oracle) (ops : List Operation)
      → Moves (Keeps {J = J}) (execute_operations oracle ops)
  unfolding execute_operations
  execute_operations-Keeps oracle [] = search keep_rules
  execute_operations-Keeps oracle (op ∷ ops) =
      Moves-bind Keeps-preorder (execute_operation oracle op) (λ _. execute_operations oracle ops)
        (execute_operation-Keeps oracle op) (λ _. execute_operations-Keeps oracle ops)

  finish-Keeps :
      (s : ChainState J) (r : Result (Unit {0})) (e : Executor J) {t : ChainState J}
      → SameChain s e.new_chain_state
      → (then_do (r, e) (λ _. gets (λ f. f.new_chain_state))).0 ≡ ok t
      → SameChain s t
  finish-Keeps s (ok a) e h k = ground arith
  finish-Keeps s (err x) e h k = absurd (cc)

  -- The state that a transaction returns has the intents, pending transactions and height of the
  -- state that it ran on.
  pub execute_transaction-SameChain :
      (oracle : Oracle) (tx : Transaction J) (s : ChainState J) (e : Executor J) {t : ChainState J}
      → (execute_transaction oracle tx s e).0 ≡ ok t
      → SameChain s t
  unfolding execute_transaction
  execute_transaction-SameChain oracle tx s e h =
      let start = record e { new_chain_state = s } in
      let (r, e') = execute_operations oracle tx.operations start in
      finish-Keeps s r e' ((execute_operations-Keeps oracle tx.operations).at start) h

-- ===== src/Abci/Tests.antt =====
-- The theorems about the chain, each at a concrete input.
use threshold.Prelude.{
  ℕ, ◌+◌, ◌≤◌, ◌≡◌, ap, sym, refl, ◌∙◌, arith, list_eq, nat_eq, bytes_ord, true, false, Memᴰ, none,
  some, List, [], ◌∷◌, Permᴰ, add64, from_be_bytes, from_utf8, to_be_bytes, Distinct, ok, err,
  error, ◌==◌, if◌then◌else◌,
}
use threshold.Prelude.Dict.{lookup, insert}
use threshold.Prelude.Sorting.{NoClash}
use threshold.Protocol.Transaction.{
  Transaction, transaction_eq, Operation, id, withdrawal, create_deposit_transaction,
  create_withdrawal_transaction,
}
use threshold.Protocol.Block.{Block}
use threshold.Abci.ChainState.{
  ChainState, get_account, decrement_balance, create_new_chain_state, get_proposed_block,
}
use threshold.Abci.ChainState.Agreement.{get_proposed_block-perm}
use threshold.Abci.Executor.{execute_transaction, allowance, pushed_one}
use threshold.Abci.Executor.Value.{balances, allowances, value}
use threshold.Abci.Executor.Backing.{execute_transaction-gains, gain_of_all}
use threshold.Abci.Executor.Effects.{
  account_of, credited, debited, deposit_credits, deposit_unverified, withdrawal_debits,
}
use threshold.Abci.Interface.{Chain, finalize_and_store_block, new_chain}
use threshold.Abci.Messages.{ChainMessage}
use threshold.Abci.Interface.{handle}
use threshold.Abci.Interface.Pending.{KeepsState, started, handled, restarted, handle-Distinct}
use threshold.Prelude.{inl}
use threshold.Abci.Interface.Finalize.{finalize_fails_whole, finalize_advances, finalize-restart}
use threshold.Samples.{codec, metadata, oracle_saying, alice, bob, two_accounts, idle, one_state_db}

abbrev deposit_9 : Transaction ℕ
deposit_9 =
    unfold create_deposit_transaction to_be_bytes in create_deposit_transaction metadata 5 alice 9

execute_transaction-gains_example :
    let (r, e') = execute_transaction (oracle_saying false) deposit_9 two_accounts idle in
    value e' ≤ balances two_accounts + allowances idle + gain_of_all 0 deposit_9.operations
execute_transaction-gains_example =
    execute_transaction-gains 0 (oracle_saying false) deposit_9 two_accounts idle
      (λ a n h p. absurd (cc))

deposit_credits_example :
    let (r, e') =
      execute_transaction
        (oracle_saying true)
        (create_deposit_transaction metadata 5 alice 9)
        two_accounts
        idle in
    (r ≡ ok e'.new_chain_state)
    × (get_account e'.new_chain_state alice ≡ (
        if alice == alice
        then some (credited (account_of two_accounts alice) 9)
        else get_account two_accounts alice))
    × (allowance e' alice ≡ allowance idle alice)
    × (e'.stack ≡ pushed_one ∷ pushed_one ∷ idle.stack)
unfolding lookup from_utf8
deposit_credits_example =
    deposit_credits metadata (oracle_saying true) two_accounts idle 5 alice 9 {h = 5 ∷ []} alice
      (omega arith) refl refl refl (omega arith) (omega arith)

deposit_unverified_example :
    let (r, e') =
      execute_transaction
        (oracle_saying false)
        (create_deposit_transaction metadata 5 alice 9)
        two_accounts
        idle in
    (r ≡ err (error "Insufficient allowance"))
    × (e'.new_chain_state ≡ two_accounts)
    × (e'.allowance_list ≡ idle.allowance_list)
unfolding lookup from_utf8
deposit_unverified_example =
    deposit_unverified metadata (oracle_saying false) two_accounts idle 5 alice 9 {h = 5 ∷ []}
      (omega arith) refl refl refl (omega arith)

withdrawal_debits_example :
    let (r, e') =
      execute_transaction
        (oracle_saying false)
        (create_withdrawal_transaction metadata alice bob 20)
        two_accounts
        idle in
    (r ≡ ok e'.new_chain_state)
    × (get_account e'.new_chain_state alice ≡ (
        if alice == alice
        then some (debited (account_of two_accounts alice) 20)
        else get_account two_accounts alice))
    × (e'.allowance_list ≡ idle.allowance_list)
    × (e'.stack ≡ pushed_one ∷ idle.stack)
unfolding lookup from_utf8
withdrawal_debits_example =
    withdrawal_debits metadata (oracle_saying false) two_accounts idle alice bob 20 alice
      (omega arith) refl (omega arith)

abbrev pay : ℕ → Transaction ℕ
pay amount = record {
  version = 1;
  type = withdrawal;
  operations =
      Operation.op_push (0 ∷ 0 ∷ 0 ∷ 0 ∷ 0 ∷ 0 ∷ 0 ∷ amount ∷ [])
      ∷ Operation.op_push alice
      ∷ Operation.op_decrement_balance
      ∷ [];
  metadata = some amount;
}

abbrev waiting : List (Transaction ℕ) → ChainState ℕ
waiting txs = record two_accounts { proposed_transactions = txs }

abbrev chain_with : List (Transaction ℕ) → Chain (ChainState ℕ) ℕ
chain_with txs = record { db = two_accounts; executor = idle; chain_state = waiting txs }

abbrev block_of : List (Transaction ℕ) → Block ℕ
block_of txs = record {
  header = record {
    version = 1;
    previous_block_hash = [];
    state_root = [];
    height = 4;
    proposer = [];
  };
  body = record { transactions = txs };
}

-- The second withdrawal is more than what the first one leaves.
abbrev overdrawn : List (Transaction ℕ)
overdrawn = pay 20 ∷ pay 40 ∷ []

finalize_fails_whole_example :
    (finalize_and_store_block one_state_db
      (oracle_saying false)
      (block_of overdrawn)
      (chain_with overdrawn)).1.chain_state
    ≡ waiting overdrawn
unfolding finalize_and_store_block execute_transaction lookup insert from_utf8 from_be_bytes
    decrement_balance create_new_chain_state
finalize_fails_whole_example =
    finalize_fails_whole one_state_db (oracle_saying false) (block_of overdrawn)
      (chain_with overdrawn) {x = error "Insufficient balance"} refl

abbrev one_payment : List (Transaction ℕ)
one_payment = pay 20 ∷ []

finalize_advances_example :
    let s' =
      (finalize_and_store_block one_state_db
        (oracle_saying false)
        (block_of one_payment)
        (chain_with one_payment)).1.chain_state in
    (s'.block_height ≡ add64 3 1) × (s'.proposed_transactions ≡ []) × (s'.deposit_intents ≡ [])
unfolding finalize_and_store_block execute_transaction lookup insert from_utf8 from_be_bytes
    decrement_balance create_new_chain_state
finalize_advances_example =
    finalize_advances one_state_db (oracle_saying false) (block_of one_payment)
      (chain_with one_payment) refl

-- The payment, though finalized, is pending again after a restart.
finalize-restart_example :
    (new_chain one_state_db
      (finalize_and_store_block one_state_db
        (oracle_saying false)
        (block_of one_payment)
        (chain_with one_payment)).1.db).chain_state.proposed_transactions
    ≡ one_payment
unfolding finalize_and_store_block execute_transaction lookup insert from_utf8 from_be_bytes
    decrement_balance create_new_chain_state
finalize-restart_example =
    finalize-restart one_state_db (oracle_saying false) (block_of one_payment)
      (chain_with one_payment) (λ s d h. refl) refl

one_state-KeepsState : KeepsState one_state_db
one_state-KeepsState = record {
  block_keeps = λ b d. refl;
  insert_keeps = λ i d. refl;
  remove_keeps = λ i d. refl;
  flush_whole = λ s d. inl refl;
}

abbrev told : ChainMessage ℕ ℕ → Chain (ChainState ℕ) ℕ → Chain (ChainState ℕ) ℕ
told message s = (handle codec one_state_db (oracle_saying false) (λ k. ok []) 60 message s).1

-- A payment is added twice, with a block and a restart in between.
handle-Distinct_example :
    Distinct
      (told (ChainMessage.add_transaction_to_block (pay 1)) (
        new_chain one_state_db
          (told (ChainMessage.finalize_block (block_of [])) (
            told
              (ChainMessage.add_transaction_to_block (pay 1))
              (new_chain one_state_db two_accounts))).db)).chain_state.proposed_transactions
handle-Distinct_example = handle-Distinct one_state-KeepsState (
    handled (oracle_saying false) 60 (ChainMessage.add_transaction_to_block (pay 1)) (
      restarted (
        handled (oracle_saying false) 60 (ChainMessage.finalize_block (block_of [])) (
          handled (oracle_saying false) 60 (ChainMessage.add_transaction_to_block (pay 1))
            (started two_accounts refl)))))

clash : id codec (pay 1) ≡ id codec (pay 2) → ⊥
unfolding id
clash h = ground arith

distinct_ids : NoClash (id codec) (pay 1 ∷ pay 2 ∷ [])
distinct_ids a b (Memᴰ.head p) (Memᴰ.head q) h = p ∙ sym q
distinct_ids a b (Memᴰ.head p) (Memᴰ.tail (Memᴰ.head q)) h =
    absurd (clash (sym (ap (id codec) p) ∙ h ∙ ap (id codec) q))
distinct_ids a b (Memᴰ.tail (Memᴰ.head p)) (Memᴰ.head q) h =
    absurd (clash (sym (ap (id codec) q) ∙ sym h ∙ ap (id codec) p))
distinct_ids a b (Memᴰ.tail (Memᴰ.head p)) (Memᴰ.tail (Memᴰ.head q)) h = p ∙ sym q
distinct_ids a b (Memᴰ.head p) (Memᴰ.tail (Memᴰ.tail m)) h = elim m [ ]
distinct_ids a b (Memᴰ.tail (Memᴰ.head p)) (Memᴰ.tail (Memᴰ.tail m)) h = elim m [ ]
distinct_ids a b (Memᴰ.tail (Memᴰ.tail m)) _ h = elim m [ ]

-- The two orders of two payments give one block.
get_proposed_block-perm_example :
    get_proposed_block codec none alice (waiting (pay 1 ∷ pay 2 ∷ []))
    ≡ get_proposed_block codec none alice (waiting (pay 2 ∷ pay 1 ∷ []))
get_proposed_block-perm_example =
    get_proposed_block-perm codec none alice (waiting (pay 1 ∷ pay 2 ∷ []))
      (waiting (pay 2 ∷ pay 1 ∷ [])) (Permᴰ.swap refl refl) distinct_ids refl

-- ===== src/Abci/ChainState.antt =====
-- crates/abci/src/chain_state.rs
pub mod Agreement
use threshold.Prelude.{
  ℕ, suc, ◌+◌, ◌-◌, Bool, not, Option, none, some, List, [], ◌∷◌, ◌++◌, Bytes, Text, ◌==◌, Eq,
  list_eq, nat_eq, bytes_ord, add64, contains, retain, find, sort_by_key, if◌then◌else◌,
}
use threshold.Prelude.Dict.{Dict, lookup, insert}
use threshold.Protocol.Codec.{Codec}
use threshold.Protocol.Transaction.{Transaction, transaction_eq, id}
use threshold.Protocol.Block.{Block, new_block, hash, zero_hash}

pub record Account : Type 0 where
  pub address : Text
  pub balance : ℕ

-- crates/types/src/intents.rs
pub record DepositIntent : Type 0 where
  pub amount_sat : ℕ
  pub user_pubkey : Text
  pub deposit_tracking_id : Text
  pub deposit_address : Text
  pub timestamp : ℕ

unfoldable pub increment_balance : Account → ℕ → Account
increment_balance account amount = record account { balance = add64 account.balance amount }

-- The predicate that `remove_deposit_intent` retains by.
abbrev pub has_other_address : DepositIntent → DepositIntent → Bool
has_other_address intent i = not (i.deposit_address == intent.deposit_address)

-- `saturating_sub` is the subtraction on ℕ.
unfoldable pub decrement_balance : Account → ℕ → Account
decrement_balance account amount = record account { balance = account.balance - amount }

pub record ChainState (J : Type 0) : Type 0 where
  pub accounts : Dict Text Account
  pub deposit_intents : List DepositIntent
  pub proposed_transactions : List (Transaction J)
  pub block_height : ℕ

module _ {J : Type 0} where
  unfoldable pub new_with_accounts : Dict Text Account → ℕ → ChainState J
  new_with_accounts accounts block_height = record {
    accounts = accounts;
    deposit_intents = [];
    proposed_transactions = [];
    block_height = block_height;
  }

  unfoldable pub create_new_chain_state : ChainState J → ChainState J
  create_new_chain_state s = record {
    accounts = s.accounts;
    deposit_intents = s.deposit_intents;
    proposed_transactions = s.proposed_transactions;
    block_height = add64 s.block_height 1;
  }

  abbrev pub get_account : ChainState J → Text → Option Account
  get_account s address = lookup address s.accounts

  abbrev pub upsert_account : Text → Account → ChainState J → ChainState J
  upsert_account address account s = record s { accounts = insert address account s.accounts }

  unfoldable pub insert_deposit_intent : DepositIntent → ChainState J → ChainState J
  insert_deposit_intent intent s = record s { deposit_intents = s.deposit_intents ++ intent ∷ [] }

  unfoldable pub remove_deposit_intent : DepositIntent → ChainState J → ChainState J
  remove_deposit_intent intent s = record s {
    deposit_intents = retain (has_other_address intent) s.deposit_intents;
  }

  unfoldable pub get_deposit_intent_by_address : ChainState J → Text → Option DepositIntent
  get_deposit_intent_by_address s address =
      find (λ intent. intent.deposit_address == address) s.deposit_intents

  unfoldable pub clear_pending_transactions : ChainState J → ChainState J
  clear_pending_transactions s = record s { proposed_transactions = [] }

-- `ChainState::new`, which is also its `Default`
unfoldable pub empty : {J : Type 0} → ChainState J
empty = record { accounts = []; deposit_intents = []; proposed_transactions = []; block_height = 0 }

unfoldable pub add_transaction_to_block :
    {J : Type 0} ⦃e : Eq J⦄ → Transaction J → ChainState J → ChainState J
add_transaction_to_block transaction s =
    if contains s.proposed_transactions transaction
    then s
    else record s { proposed_transactions = s.proposed_transactions ++ transaction ∷ [] }

module _ {J : Type 0} (c : Codec J) where
  -- `previous_block.map_or([0u8; 32], |b| b.hash())`
  abbrev pub previous_hash : Option (Block J) → Bytes
  previous_hash none = zero_hash
  previous_hash (some block) = hash c block

  unfoldable pub get_proposed_block : Option (Block J) → Bytes → ChainState J → Block J
  unfolding new_block
  get_proposed_block previous_block proposer s =
      new_block c (previous_hash previous_block) (add64 s.block_height 1)
        (sort_by_key (id c) s.proposed_transactions) proposer

-- ===== src/Abci/Messages.antt =====
-- crates/abci/src/lib.rs: the messages that the chain answers, and its answers. `K` is the public key
-- package of the crate frost.
use threshold.Prelude.{ℕ, Option, List, Bytes, Text, NodeError}
use threshold.Protocol.Transaction.{Transaction}
use threshold.Protocol.Block.{Block, ValidatorInfo, ChainConfig}
use threshold.Abci.ChainState.{Account, DepositIntent, ChainState}

pub data ChainMessage (J K : Type 0) : Type 0 where
  insert_deposit_intent : DepositIntent → ChainMessage J K
  get_account : Text → ChainMessage J K
  get_all_deposit_intents : ChainMessage J K
  get_deposit_intent_by_address : Text → ChainMessage J K
  create_genesis_block : List ValidatorInfo → ChainConfig → K → ChainMessage J K
  add_transaction_to_block : Transaction J → ChainMessage J K
  get_proposed_block : Option (Block J) → Bytes → ChainMessage J K
  finalize_block : Block J → ChainMessage J K
  get_pending_transactions : ChainMessage J K
  get_chain_state : ChainMessage J K
  get_chain_info : ChainMessage J K
  remove_deposit_intent : DepositIntent → ChainMessage J K

pub data ChainResponse (J : Type 0) : Type 0 where
  insert_deposit_intent : Option NodeError → ChainResponse J
  get_account : Option Account → ChainResponse J
  get_all_deposit_intents : List DepositIntent → ChainResponse J
  get_deposit_intent_by_address : Option DepositIntent → ChainResponse J
  create_genesis_block : Option NodeError → ChainResponse J
  add_transaction_to_block : Option NodeError → ChainResponse J
  get_proposed_block : Block J → ChainResponse J
  finalize_and_store_block : Option NodeError → ChainResponse J
  get_pending_transactions : List (Transaction J) → ChainResponse J
  get_chain_state : ChainState J → ChainResponse J
  get_chain_info : (height pending_transactions : ℕ) → ChainResponse J
  remove_deposit_intent : Option NodeError → ChainResponse J

-- ===== src/Node/Balance.antt =====
-- crates/node/src/handlers/balance/mod.rs: requests that only read the chain.
use threshold.Prelude.{
  ℕ, Option, none, some, List, [], ◌∷◌, ◌++◌, Text, Result, ok, err, error, Action, pure, lift, ltb,
  ◌>>=◌, display, length, if◌then◌else◌,
}
use threshold.Abci.ChainState.{Account, ChainState}
use threshold.Abci.Messages.{ChainMessage, ChainResponse}
use threshold.Types.Network.{World, BlockInfo, SelfRequest, SelfResponse, NetworkEvent}
use threshold.Node.{Services, At, call, answer}

module _ {J : Type 0} where
  abbrev pub expect_account : ChainResponse J → Result (Option Account)
  expect_account (ChainResponse.get_account account) = ok account
  expect_account _ = err (error "Failed to get account")

  abbrev pub expect_state : ChainResponse J → Result (ChainState J)
  expect_state (ChainResponse.get_chain_state state) = ok state
  expect_state _ = err (error "Failed to get chain state")

-- An account that the chain does not have counts as empty.
abbrev pub balance_of : Option Account → ℕ
balance_of none = 0
balance_of (some account) = account.balance

-- "latest"
abbrev latest : Text
latest = 108 ∷ 97 ∷ 116 ∷ 101 ∷ 115 ∷ 116 ∷ []

-- "block_hash_"
abbrev block_hash_prefix : Text
block_hash_prefix = 98 ∷ 108 ∷ 111 ∷ 99 ∷ 107 ∷ 95 ∷ 104 ∷ 97 ∷ 115 ∷ 104 ∷ 95 ∷ []

-- The latest block, made up from the height; none at height 0. `u32::try_from` does not fail: so many
-- transactions do not fit in memory.
unfoldable pub latest_blocks : {J : Type 0} → (now : ℕ) → ChainState J → List BlockInfo
latest_blocks now state =
    if ltb 0 state.block_height
    then record {
      height = state.block_height;
      hash = block_hash_prefix ++ display state.block_height;
      timestamp = now;
      transaction_count = length state.proposed_transactions;
    }
      ∷ []
    else []

-- `BalanceState` has no fields.
module _ {w : World} (sv : Services w) where
  unfoldable pub handle : (now : ℕ) → NetworkEvent w → Action (At (Unit {0}) w) (Unit {0})
  unfolding latest_blocks
  handle now (NetworkEvent.self_request (SelfRequest.check_balance address) channel) = do
    response ← call (sv.ask_chain (ChainMessage.get_account address))
    account ← lift (expect_account response)
    answer sv channel (SelfResponse.check_balance (balance_of account))
  handle now (NetworkEvent.self_request SelfRequest.get_chain_info channel) = do
    response ← call (sv.ask_chain ChainMessage.get_chain_state)
    state ← lift (expect_state response)
    answer sv channel
        (SelfResponse.get_chain_info state.block_height latest (length state.proposed_transactions))
  handle now (NetworkEvent.self_request (SelfRequest.get_latest_blocks count) channel) = do
    response ← call (sv.ask_chain ChainMessage.get_chain_state)
    state ← lift (expect_state response)
    answer sv channel (SelfResponse.get_latest_blocks (latest_blocks now state))
  handle now _ = pure tt

-- ===== src/Samples.antt =====
-- Small concrete instances of what the models take as parameters, for the examples: JSON values,
-- bitcoin transactions and peer ids are numbers, and the digest of some bytes is these bytes.
use threshold.Prelude.{ℕ, Bool, Option, none, some, [], ◌∷◌, Bytes, Text, ok}
use threshold.Protocol.Codec.{Codec}
use threshold.Protocol.Transaction.{Metadata}
use threshold.Abci.ChainState.{ChainState}
use threshold.Abci.Executor.{Oracle, Executor}
use threshold.Abci.Db.{Db}

abbrev read_first : Bytes → Option (ℕ × Bytes)
read_first [] = none
read_first (b ∷ bs) = some (b, bs)

-- `null` is the text with no bytes.
abbrev read_option : Text → Option (Option ℕ)
read_option [] = some none
read_option (b ∷ bs) = some (some b)

abbrev write_option : Option ℕ → Text
write_option none = []
write_option (some j) = j ∷ []

abbrev pub codec : Codec ℕ
codec = record {
  sha256 = λ bs. bs;
  encode_u32 = λ n. n ∷ [];
  decode_u32 = read_first;
  encode_u64 = λ n. n ∷ [];
  decode_u64 = read_first;
  value_to_string = λ j. j ∷ [];
  option_to_string = write_option;
  option_from_str = read_option;
}

abbrev pub metadata : Metadata ℕ ℕ
metadata = record {
  compute_txid = λ tx. tx ∷ [];
  deposit_json = λ tx user_pubkey amount. tx;
  withdrawal_json = λ user_pubkey amount address_to. amount;
  get_tx = λ j. some j;
  tx_from_value = λ j. some j;
}

-- An oracle that gives every deposit the same answer.
abbrev pub oracle_saying : Bool → Oracle
oracle_saying answer = record {
  txid_from_slice = λ bs. ok bs;
  validate_transaction = λ address amount tx_hash. ok answer;
}

-- The users "a" and "b".
abbrev pub alice : Text
alice = 97 ∷ []

abbrev pub bob : Text
bob = 98 ∷ []

abbrev pub two_accounts : ChainState ℕ
two_accounts = record {
  accounts =
      (alice, record { address = alice; balance = 50 })
      ∷ (bob, record { address = bob; balance = 7 })
      ∷ [];
  deposit_intents = [];
  proposed_transactions = [];
  block_height = 3;
}

abbrev pub idle : Executor ℕ
idle = record { allowance_list = []; stack = []; last_error = none; new_chain_state = two_accounts }

-- A database that is the chain state it holds.
abbrev pub one_state_db : Db (ChainState ℕ) ℕ
one_state_db = record {
  get_block_by_height = λ height d. ok none;
  get_block_by_hash = λ hash d. ok none;
  get_tip_block_hash = λ d. ok none;
  get_chain_state = λ d. ok (some d);
  insert_chain_state = λ s d. (ok tt, s);
  insert_block = λ block d. (ok tt, d);
  insert_deposit_intent = λ intent d. (ok tt, d);
  get_deposit_intent = λ tracking_id d. ok none;
  get_all_deposit_intents = λ d. ok [];
  remove_deposit_intent = λ intent d. (ok tt, d);
  get_deposit_intent_by_address = λ address d. ok none;
  flush_state = λ s d. (ok tt, s);
  store_utxos = λ utxos d. (ok tt, d);
  get_utxos = λ d. ok [];
}

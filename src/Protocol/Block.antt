-- ===== src/Protocol/Block.antt =====
-- crates/protocol/src/block.rs and proposal.rs
use threshold.Prelude.{
  ℕ, ◌/◌, ◌^◌, Bool, List, [], ◌∷◌, ◌++◌, Bytes, Text, length, ◌==◌, list_eq, nat_eq,
}
use threshold.Protocol.Codec.{Codec}
use threshold.Protocol.Transaction.{Transaction, u32_le_bytes, type_index, operation_bytes}

pub record BlockHeader : Type 0 where
  pub version : ℕ
  pub previous_block_hash : Bytes
  pub state_root : Bytes
  pub height : ℕ
  pub proposer : Bytes

pub record BlockBody (J : Type 0) : Type 0 where
  pub transactions : List (Transaction J)

pub record Block (J : Type 0) : Type 0 where
  pub header : BlockHeader
  pub body : BlockBody J

pub record ValidatorInfo : Type 0 where
  pub pub_key : Bytes
  pub stake : ℕ

pub record ChainConfig : Type 0 where
  pub min_signers : ℕ
  pub max_signers : ℕ
  pub min_stake : ℕ
  pub block_time_seconds : ℕ
  pub max_block_size : ℕ

pub record GenesisState : Type 0 where
  pub validators : List ValidatorInfo
  pub vault_pub_key : Bytes
  pub initial_balances : List (Text × ℕ)
  pub chain_config : ChainConfig

pub record GenesisBlock : Type 0 where
  pub version : ℕ
  pub timestamp : ℕ
  pub initial_state : GenesisState
  pub extra_data : Bytes

-- `[0u8; 32]`
abbrev pub zero_hash : Bytes
zero_hash =
    0 ∷ 0 ∷ 0 ∷ 0 ∷ 0 ∷ 0 ∷ 0 ∷ 0 ∷ 0 ∷ 0 ∷ 0 ∷ 0 ∷ 0 ∷ 0 ∷ 0 ∷ 0 ∷ 0 ∷ 0 ∷ 0 ∷ 0 ∷ 0 ∷ 0 ∷ 0 ∷ 0
    ∷ 0 ∷ 0 ∷ 0 ∷ 0 ∷ 0 ∷ 0 ∷ 0 ∷ 0 ∷ []

-- `u64::to_le_bytes`
unfoldable pub u64_le_bytes : ℕ → Bytes
unfolding u32_le_bytes
u64_le_bytes n = u32_le_bytes n ++ u32_le_bytes (n / 2 ^ 32)

-- `validators.first().map(|v| v.pub_key.clone()).unwrap_or_default()`
unfoldable pub first_pub_key : List ValidatorInfo → Bytes
first_pub_key [] = []
first_pub_key (v ∷ vs) = v.pub_key

-- `GenesisBlock::new`, at the time that the system clock shows.
unfoldable pub new_genesis : ℕ → List ValidatorInfo → ChainConfig → Bytes → GenesisBlock
new_genesis now validators chain_config vault_pub_key = record {
  version = 1;
  timestamp = now;
  initial_state = record {
    validators = validators;
    vault_pub_key = vault_pub_key;
    initial_balances = [];
    chain_config = chain_config;
  };
  -- b"Genesis Block"
  extra_data = 71 ∷ 101 ∷ 110 ∷ 101 ∷ 115 ∷ 105 ∷ 115 ∷ 32 ∷ 66 ∷ 108 ∷ 111 ∷ 99 ∷ 107 ∷ [];
}

module _ {J : Type 0} (c : Codec J) where
  -- `impl Encode for Transaction`
  unfoldable pub encode_transaction : Transaction J → Bytes
  unfolding type_index operation_bytes
  encode_transaction tx =
      c.encode_u32 tx.version
      ++ (c.encode_u32 (type_index tx.type)
          ++ (c.encode_u64 (length tx.operations)
              ++ (operation_bytes c tx.operations
                  ++ (c.encode_u64 (length (c.option_to_string tx.metadata))
                      ++ c.option_to_string tx.metadata))))

  unfoldable pub transaction_bytes : List (Transaction J) → Bytes
  unfolding encode_transaction
  transaction_bytes [] = []
  transaction_bytes (tx ∷ txs) = encode_transaction tx ++ transaction_bytes txs

  -- `bincode::encode_to_vec(&transactions, …)`
  unfoldable pub encode_transactions : List (Transaction J) → Bytes
  unfolding transaction_bytes
  encode_transactions txs = c.encode_u64 (length txs) ++ transaction_bytes txs

  -- `BlockBody::calculate_hash`
  unfoldable pub calculate_body_hash : BlockBody J → Bytes
  unfolding encode_transactions
  calculate_body_hash body = c.sha256 (encode_transactions body.transactions)

  -- `BlockHeader::calculate_hash`
  unfoldable pub calculate_header_hash : BlockHeader → Bytes
  unfolding u32_le_bytes u64_le_bytes
  calculate_header_hash header = c.sha256 (
      u32_le_bytes header.version
      ++ (header.previous_block_hash
          ++ (header.state_root ++ (u64_le_bytes header.height ++ header.proposer))))

  -- `Block::hash`
  unfoldable pub hash : Block J → Bytes
  unfolding calculate_header_hash calculate_body_hash
  hash block = c.sha256 (calculate_header_hash block.header ++ calculate_body_hash block.body)

  -- `impl PartialEq for Block`
  unfoldable pub block_eqb : Block J → Block J → Bool
  unfolding hash
  block_eqb a b = hash a == hash b

  -- `Block::new_with_state_root`
  unfoldable pub new_with_state_root : Bytes → ℕ → Bytes → List (Transaction J) → Bytes → Block J
  new_with_state_root previous_block_hash height state_root transactions proposer = record {
    header = record {
      version = 1;
      previous_block_hash = previous_block_hash;
      state_root = state_root;
      height = height;
      proposer = proposer;
    };
    body = record { transactions = transactions };
  }

  -- `Block::new`
  unfoldable pub new_block : Bytes → ℕ → List (Transaction J) → Bytes → Block J
  unfolding encode_transactions u64_le_bytes
  new_block previous_block_hash height transactions proposer = record {
    header = record {
      version = 1;
      previous_block_hash = previous_block_hash;
      state_root = c.sha256 (encode_transactions transactions ++ (proposer ++ u64_le_bytes height));
      height = height;
      proposer = proposer;
    };
    body = record { transactions = transactions };
  }

  -- `GenesisBlock::to_block`: the state root that it computes first is dropped.
  unfoldable pub to_block : GenesisBlock → Block J
  unfolding new_block first_pub_key
  to_block genesis = new_block zero_hash 0 [] (first_pub_key genesis.initial_state.validators)

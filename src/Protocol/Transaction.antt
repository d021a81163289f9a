-- ===== src/Protocol/Transaction.antt =====
-- crates/protocol/src/transaction.rs
use threshold.Prelude.{
  ℕ, ◌≡◌, Bool, true, false, ◌&&◌, Option, none, some, List, [], ◌∷◌, ◌++◌, arith, Eq, ◌==◌, eq_by,
  ==_iff, nat_eq, list_eq, Bytes, Text, to_be_bytes, length, ◌↔◌, ◌/◌, ◌%◌, ◌^◌, Result, err, error,
  ok_or,
}
use threshold.Protocol.Codec.{Codec}

pub data TransactionType : Type 0 where
  deposit withdrawal : TransactionType

pub data Operation : Type 0 where
  op_push : Bytes → Operation
  op_check_oracle op_increment_balance op_decrement_balance : Operation

pub record Transaction (J : Type 0) : Type 0 where
  pub version : ℕ
  pub type : TransactionType
  pub operations : List Operation
  pub metadata : Option J

abbrev pub type_eqb : TransactionType → TransactionType → Bool
type_eqb deposit deposit = true
type_eqb withdrawal withdrawal = true
type_eqb _ _ = false

pub type_eqb_iff : (a b : TransactionType) → (type_eqb a b ≡ true) ↔ (a ≡ b)
type_eqb_iff a b = ground arith

abbrev pub operation_eqb : Operation → Operation → Bool
operation_eqb (op_push v) (op_push w) = v == w
operation_eqb op_check_oracle op_check_oracle = true
operation_eqb op_increment_balance op_increment_balance = true
operation_eqb op_decrement_balance op_decrement_balance = true
operation_eqb _ _ = false

pub operation_eqb_iff : (a b : Operation) → (operation_eqb a b ≡ true) ↔ (a ≡ b)
operation_eqb_iff (op_push v) (op_push w) = ground (arith, ==_iff v w)
operation_eqb_iff op_check_oracle b = ground arith
operation_eqb_iff op_increment_balance b = ground arith
operation_eqb_iff op_decrement_balance b = ground arith
operation_eqb_iff (op_push v) op_check_oracle = ground arith
operation_eqb_iff (op_push v) op_increment_balance = ground arith
operation_eqb_iff (op_push v) op_decrement_balance = ground arith

instance abbrev pub operation_eq : Eq Operation
operation_eq = eq_by operation_eqb operation_eqb_iff

module _ {J : Type 0} ⦃e : Eq J⦄ where
  abbrev pub metadata_eqb : Option J → Option J → Bool
  metadata_eqb none none = true
  metadata_eqb none (some b) = false
  metadata_eqb (some a) none = false
  metadata_eqb (some a) (some b) = a == b

  pub metadata_eqb_iff : (a b : Option J) → (metadata_eqb a b ≡ true) ↔ (a ≡ b)
  metadata_eqb_iff none none = ground arith
  metadata_eqb_iff none (some b) = ground arith
  metadata_eqb_iff (some a) none = ground arith
  metadata_eqb_iff (some a) (some b) = ground (arith, ==_iff a b)

  -- `#[derive(PartialEq)]`
  abbrev pub transaction_eqb : Transaction J → Transaction J → Bool
  transaction_eqb a b =
      (a.version == b.version)
      && type_eqb a.type b.type
      && (a.operations == b.operations)
      && metadata_eqb a.metadata b.metadata

  pub transaction_eqb_iff : (a b : Transaction J) → (transaction_eqb a b ≡ true) ↔ (a ≡ b)
  transaction_eqb_iff a b = ground (
    arith,
    ==_iff a.version b.version,
    type_eqb_iff a.type b.type,
    ==_iff a.operations b.operations,
    metadata_eqb_iff a.metadata b.metadata,
  )

instance abbrev pub transaction_eq : {J : Type 0} ⦃e : Eq J⦄ → Eq (Transaction J)
transaction_eq = eq_by transaction_eqb transaction_eqb_iff

-- `Transaction::new`
unfoldable pub new : {J : Type 0} → TransactionType → List Operation → Option J → Transaction J
new type operations metadata = record {
  version = 1;
  type = type;
  operations = operations;
  metadata = metadata;
}

-- `u32::to_le_bytes`
unfoldable pub u32_le_bytes : ℕ → Bytes
u32_le_bytes n = (n % 256) ∷ (n / 2 ^ 8 % 256) ∷ (n / 2 ^ 16 % 256) ∷ (n / 2 ^ 24 % 256) ∷ []

-- The index that bincode's derived `Encode` writes for a variant.
unfoldable pub type_index : TransactionType → ℕ
type_index deposit = 0
type_index withdrawal = 1

module _ {J : Type 0} (c : Codec J) where
  -- bincode's derived `Encode` of an enum writes the variant's index, then its fields; a vector is
  -- its length and its elements.
  unfoldable pub encode_operation : Operation → Bytes
  encode_operation (op_push value) = c.encode_u32 0 ++ (c.encode_u64 (length value) ++ value)
  encode_operation op_check_oracle = c.encode_u32 1
  encode_operation op_increment_balance = c.encode_u32 2
  encode_operation op_decrement_balance = c.encode_u32 3

  unfoldable pub operation_bytes : List Operation → Bytes
  unfolding encode_operation
  operation_bytes [] = []
  operation_bytes (op ∷ ops) = encode_operation op ++ operation_bytes ops

  unfoldable pub metadata_bytes : Option J → Bytes
  metadata_bytes none = []
  metadata_bytes (some metadata) = c.value_to_string metadata

  -- `Transaction::id`
  unfoldable pub id : Transaction J → Bytes
  unfolding u32_le_bytes type_index operation_bytes metadata_bytes
  id tx = c.sha256 (
      u32_le_bytes tx.version
      ++ (c.encode_u32 (type_index tx.type)
          ++ (operation_bytes tx.operations ++ metadata_bytes tx.metadata)))

-- What the constructors below use of the crates bitcoin and serde_json: the id of a bitcoin
-- transaction, the `json!` objects that become the metadata, and reading the object's fields.
pub record Metadata (B J : Type 0) : Type 0 where
  pub compute_txid : B → Bytes
  pub deposit_json : B → Text → ℕ → J
  pub withdrawal_json : Text → ℕ → Text → J
  -- `get("tx")`, and `from_value` of what it returns
  pub get_tx : J → Option J
  pub tx_from_value : J → Option B

module _ {B J : Type 0} (m : Metadata B J) where
  unfoldable pub create_deposit_transaction : B → Text → ℕ → Transaction J
  unfolding new
  create_deposit_transaction tx user_pubkey amount_sat =
      new deposit
        (op_push (to_be_bytes amount_sat)
          ∷ op_push user_pubkey
          ∷ op_push (m.compute_txid tx)
          ∷ op_check_oracle
          ∷ op_push (to_be_bytes amount_sat)
          ∷ op_push user_pubkey
          ∷ op_increment_balance
          ∷ [])
        (some (m.deposit_json tx user_pubkey amount_sat))

  unfoldable pub create_withdrawal_transaction : Text → Text → ℕ → Transaction J
  unfolding new
  create_withdrawal_transaction user_pubkey address_to amount_sat =
      new withdrawal
        (op_push (to_be_bytes amount_sat) ∷ op_push user_pubkey ∷ op_decrement_balance ∷ [])
        (some (m.withdrawal_json user_pubkey amount_sat address_to))

  unfoldable pub get_deposit_transaction_address : Transaction J → Result B
  get_deposit_transaction_address tx = elim tx.metadata [
    | none ↦ err (error "No metadata")
    | some metadata ↦ elim (m.get_tx metadata) [
      | none ↦ err (error "No tx")
      | some value ↦ ok_or (m.tx_from_value value) "Invalid tx"
    ]
  ]

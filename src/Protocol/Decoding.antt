-- ===== src/Protocol/Decoding.antt =====
-- crates/protocol/src/transaction.rs: `Encode` and `Decode` of transactions, written here and derived by
-- bincode. `none` stands for an error of decoding, and for the panic when serde_json refuses the metadata.
pub mod ReadBack
mod Tests
use threshold.Prelude.{
  ℕ, zero, suc, ◌<◌, ◌≡◌, refl, true, Option, none, some, List, [], ◌∷◌, ◌++◌, arith, Bytes, Text,
  length, u32_mod, u64_mod, from_utf8, is_utf8, from_utf8-is_utf8, Memᴰ,
}
use mathlib.Core.List.{append_assoc}
use threshold.Protocol.Codec.{Codec, ReadsBack}
use threshold.Protocol.Transaction.{
  Transaction, TransactionType, deposit, withdrawal, Operation, op_push, op_check_oracle,
  op_increment_balance, op_decrement_balance, type_index, encode_operation, operation_bytes,
}

-- `?` in a decoder
abbrev pub then_read :
    {A B : Type 0} → Option (A × Bytes) → (A → Bytes → Option (B × Bytes)) → Option (B × Bytes)
then_read none f = none
then_read (some (a, rest)) f = f a rest

-- That many bytes, if there are so many.
unfoldable pub read_bytes : ℕ → Bytes → Option (Bytes × Bytes)
read_bytes zero bs = some ([], bs)
read_bytes (suc n) [] = none
read_bytes (suc n) (b ∷ bs) = then_read (read_bytes n bs) (λ value rest. some (b ∷ value, rest))

abbrev pub type_at : ℕ → Bytes → Option (TransactionType × Bytes)
type_at zero rest = some (deposit, rest)
type_at (suc zero) rest = some (withdrawal, rest)
type_at n rest = none

module _ {J : Type 0} (c : Codec J) where
  -- A `Vec<u8>` or a `String`
  unfoldable pub encode_bytes : Bytes → Bytes
  encode_bytes value = c.encode_u64 (length value) ++ value

  unfoldable pub decode_bytes : Bytes → Option (Bytes × Bytes)
  unfolding read_bytes
  decode_bytes bs = then_read (c.decode_u64 bs) read_bytes

  abbrev pub operation_at : ℕ → Bytes → Option (Operation × Bytes)
  operation_at zero rest = then_read (decode_bytes rest) (λ value rest. some (op_push value, rest))
  operation_at (suc zero) rest = some (op_check_oracle, rest)
  operation_at (suc (suc zero)) rest = some (op_increment_balance, rest)
  operation_at (suc (suc (suc zero))) rest = some (op_decrement_balance, rest)
  operation_at n rest = none

  unfoldable pub decode_operation : Bytes → Option (Operation × Bytes)
  unfolding decode_bytes
  decode_operation bs = then_read (c.decode_u32 bs) operation_at

  unfoldable pub decode_operations : (count : ℕ) → Bytes → Option (List Operation × Bytes)
  unfolding decode_operation
  decode_operations zero bs = some ([], bs)
  decode_operations (suc n) bs =
      then_read (decode_operation bs)
        (λ op rest. then_read (decode_operations n rest) (λ ops rest. some (op ∷ ops, rest)))

  abbrev pub metadata_from : Option (Option J) → Bytes → Option (Option J × Bytes)
  metadata_from none rest = none
  metadata_from (some metadata) rest = some (metadata, rest)

  abbrev pub read_metadata : Option Text → Bytes → Option (Option J × Bytes)
  read_metadata none rest = none
  read_metadata (some text) rest = metadata_from (c.option_from_str text) rest

  unfoldable pub encode_transaction : Transaction J → Bytes
  unfolding type_index operation_bytes encode_bytes
  encode_transaction tx =
      c.encode_u32 tx.version
      ++ (c.encode_u32 (type_index tx.type)
          ++ (c.encode_u64 (length tx.operations)
              ++ (operation_bytes c tx.operations
                  ++ encode_bytes (c.option_to_string tx.metadata))))

  unfoldable pub decode_type : Bytes → Option (TransactionType × Bytes)
  decode_type bs = then_read (c.decode_u32 bs) type_at

  -- A `Vec<Operation>`
  unfoldable pub decode_vec : Bytes → Option (List Operation × Bytes)
  unfolding decode_operations
  decode_vec bs = then_read (c.decode_u64 bs) decode_operations

  unfoldable pub decode_metadata : Bytes → Option (Option J × Bytes)
  unfolding decode_bytes from_utf8
  decode_metadata bs = then_read (decode_bytes bs) (λ text. read_metadata (from_utf8 text))

  unfoldable pub decode_transaction : Bytes → Option (Transaction J × Bytes)
  unfolding decode_type decode_vec decode_metadata
  decode_transaction bs = then_read (c.decode_u32 bs) (λ version rest.
      then_read (decode_type rest) (λ type rest. then_read (decode_vec rest) (λ operations rest.
        then_read (decode_metadata rest) (λ metadata rest. some (
          (
            record { version = version; type = type; operations = operations; metadata = metadata },
            rest,
          ))))))

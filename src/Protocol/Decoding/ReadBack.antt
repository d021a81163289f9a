-- ===== src/Protocol/Decoding/ReadBack.antt =====
-- What is written of a transaction is read back (crates/protocol/src/transaction.rs).
use threshold.Prelude.{
  zero, ◌<◌, ◌≡◌, refl, true, some, List, [], ◌∷◌, ◌++◌, arith, Bytes, length, u32_mod, u64_mod,
  is_utf8, from_utf8-is_utf8, Memᴰ,
}
use mathlib.Core.List.{append_assoc}
use threshold.Protocol.Codec.{Codec, ReadsBack}
use threshold.Protocol.Transaction.{
  Transaction, TransactionType, deposit, withdrawal, Operation, op_push, op_check_oracle,
  op_increment_balance, op_decrement_balance, type_index, encode_operation, operation_bytes,
}
use threshold.Protocol.Decoding.{
  read_bytes, encode_bytes, decode_bytes, decode_operation, decode_operations, decode_type,
  decode_vec, decode_metadata, encode_transaction, decode_transaction,
}

read_bytes-append :
    (value rest : Bytes) → read_bytes (length value) (value ++ rest) ≡ some (value, rest)
unfolding read_bytes
read_bytes-append [] rest = refl
read_bytes-append (b ∷ value) rest = rw (read_bytes-append value rest) refl

-- A value on the stack of an operation is shorter than 2 ^ 64.
abbrev pub Fits : Operation → Type 0
Fits (op_push value) = length value < u64_mod
Fits _ = zero ≡ zero

-- The sizes fit their integers, and serde_json reads back what it writes of the metadata, which is UTF-8.
-- (It reads `Some(Value::Null)` back as `None`.)
pub record Readable {J : Type 0} (c : Codec J) (tx : Transaction J) : Type 0 where
  pub version_fits : tx.version < u32_mod
  pub count_fits : length tx.operations < u64_mod
  pub operations_fit : (op : Operation) → Memᴰ op tx.operations → Fits op
  pub text_fits : length (c.option_to_string tx.metadata) < u64_mod
  pub text_utf8 : is_utf8 (c.option_to_string tx.metadata) ≡ true
  pub metadata_back : c.option_from_str (c.option_to_string tx.metadata) ≡ some tx.metadata

module _ {J : Type 0} (c : Codec J) (back : ReadsBack c) where
  decode_bytes-encode_bytes :
      (value rest : Bytes)
      → length value < u64_mod
      → decode_bytes c (encode_bytes c value ++ rest) ≡ some (value, rest)
  unfolding decode_bytes encode_bytes
  decode_bytes-encode_bytes value rest h =
      rw
        (
          append_assoc (c.encode_u64 (length value)) value rest,
          back.u64_back (length value) (value ++ rest) h,
        )
        (read_bytes-append value rest)

  decode_operation-encode_operation :
      (op : Operation) (rest : Bytes)
      → Fits op
      → decode_operation c (encode_operation c op ++ rest) ≡ some (op, rest)
  unfolding decode_operation encode_operation encode_bytes
  decode_operation-encode_operation (op_push value) rest h =
      rw
        (
          append_assoc (c.encode_u32 0) (encode_bytes c value) rest,
          back.u32_back 0 (encode_bytes c value ++ rest) (omega arith),
          decode_bytes-encode_bytes value rest h,
        )
        refl
  decode_operation-encode_operation op_check_oracle rest h =
      rw (back.u32_back 1 rest (omega arith)) refl
  decode_operation-encode_operation op_increment_balance rest h =
      rw (back.u32_back 2 rest (omega arith)) refl
  decode_operation-encode_operation op_decrement_balance rest h =
      rw (back.u32_back 3 rest (omega arith)) refl

  decode_operations-operation_bytes :
      (ops : List Operation) (rest : Bytes)
      → ((op : Operation) → Memᴰ op ops → Fits op)
      → decode_operations c (length ops) (operation_bytes c ops ++ rest) ≡ some (ops, rest)
  unfolding decode_operations operation_bytes
  decode_operations-operation_bytes [] rest h = refl
  decode_operations-operation_bytes (op ∷ ops) rest h =
      rw
        (
          append_assoc (encode_operation c op) (operation_bytes c ops) rest,
          decode_operation-encode_operation op (operation_bytes c ops ++ rest)
              (h op (Memᴰ.head refl)),
          decode_operations-operation_bytes ops rest (λ o m. h o (Memᴰ.tail m)),
        )
        refl

  type_back :
      (type : TransactionType) (rest : Bytes)
      → decode_type c (c.encode_u32 (type_index type) ++ rest) ≡ some (type, rest)
  unfolding decode_type type_index
  type_back deposit rest = rw (back.u32_back 0 rest (omega arith)) refl
  type_back withdrawal rest = rw (back.u32_back 1 rest (omega arith)) refl

  operations_back :
      (tx : Transaction J) (rest : Bytes)
      → Readable c tx
      → decode_vec c
          (c.encode_u64 (length tx.operations) ++ (operation_bytes c tx.operations ++ rest))
        ≡ some (tx.operations, rest)
  unfolding decode_vec
  operations_back tx rest readable =
      rw
        (back.u64_back (length tx.operations) (operation_bytes c tx.operations ++ rest)
          readable.count_fits)
        (decode_operations-operation_bytes tx.operations rest readable.operations_fit)

  metadata_reads :
      (tx : Transaction J) (rest : Bytes)
      → Readable c tx
      → decode_metadata c (encode_bytes c (c.option_to_string tx.metadata) ++ rest)
        ≡ some (tx.metadata, rest)
  unfolding decode_metadata
  metadata_reads tx rest readable =
      let text = c.option_to_string tx.metadata in
      rw
        (
          decode_bytes-encode_bytes text rest readable.text_fits,
          from_utf8-is_utf8 text readable.text_utf8,
          readable.metadata_back,
        )
        refl

  -- If bincode reads back the integers that it writes, and serde_json the metadata, which is UTF-8, and
  -- the sizes fit their integers: what is written of a transaction, with whatever follows it, is read back
  -- as the transaction, and what follows is left.
  pub decode_transaction-encode_transaction :
      (tx : Transaction J) (rest : Bytes)
      → Readable c tx
      → decode_transaction c (encode_transaction c tx ++ rest) ≡ some (tx, rest)
  unfolding decode_transaction encode_transaction
  decode_transaction-encode_transaction tx rest readable =
      let metadata = encode_bytes c (c.option_to_string tx.metadata) in
      let operations = operation_bytes c tx.operations in
      let count = c.encode_u64 (length tx.operations) in
      let type = c.encode_u32 (type_index tx.type) in
      rw
        (
          append_assoc (c.encode_u32 tx.version) (type ++ (count ++ (operations ++ metadata))) rest,
          append_assoc type (count ++ (operations ++ metadata)) rest,
          append_assoc count (operations ++ metadata) rest,
          append_assoc operations metadata rest,
          back.u32_back tx.version (type ++ (count ++ (operations ++ (metadata ++ rest))))
              readable.version_fits,
          type_back tx.type (count ++ (operations ++ (metadata ++ rest))),
          operations_back tx (metadata ++ rest) readable,
          metadata_reads tx rest readable,
        )
        refl

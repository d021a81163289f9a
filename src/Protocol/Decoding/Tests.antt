-- ===== src/Protocol/Decoding/Tests.antt =====
-- A transaction with a value and metadata, and two bytes after it.
use threshold.Prelude.{◌≡◌, ◌++◌, refl, some, [], ◌∷◌, ℕ, arith, Memᴰ, is_utf8}
use threshold.Protocol.Codec.{ReadsBack}
use threshold.Protocol.Transaction.{Transaction, deposit, Operation, op_push, op_check_oracle}
use threshold.Protocol.Decoding.{encode_transaction, decode_transaction}
use threshold.Protocol.Decoding.ReadBack.{Fits, Readable, decode_transaction-encode_transaction}
use threshold.Samples.{codec}

abbrev checked : Transaction ℕ
checked = record {
  version = 1;
  type = deposit;
  operations = op_push (4 ∷ 5 ∷ []) ∷ op_check_oracle ∷ [];
  metadata = some 7;
}

codec_back : ReadsBack codec
codec_back = record { u32_back = λ n rest h. refl; u64_back = λ n rest h. refl }

operations_fit : (op : Operation) → Memᴰ op checked.operations → Fits op
operations_fit op (Memᴰ.head p) = rw p (omega arith)
operations_fit op (Memᴰ.tail (Memᴰ.head p)) = rw p refl
operations_fit op (Memᴰ.tail (Memᴰ.tail m)) = elim m [ ]

checked-Readable : Readable codec checked
unfolding is_utf8
checked-Readable = record {
  version_fits = omega arith;
  count_fits = omega arith;
  operations_fit = operations_fit;
  text_fits = omega arith;
  text_utf8 = refl;
  metadata_back = refl;
}

written : encode_transaction codec checked ≡ 1 ∷ 0 ∷ 2 ∷ 0 ∷ 2 ∷ 4 ∷ 5 ∷ 1 ∷ 1 ∷ 7 ∷ []
unfolding encode_transaction
written = refl

decode_transaction-encode_transaction_example :
    decode_transaction codec (encode_transaction codec checked ++ 8 ∷ 9 ∷ [])
    ≡ some (checked, 8 ∷ 9 ∷ [])
decode_transaction-encode_transaction_example =
    decode_transaction-encode_transaction codec codec_back checked (8 ∷ 9 ∷ []) checked-Readable

-- ===== src/Abci/RocksDb/Tests.antt =====
-- The theorems about the database, each at a concrete input.
use threshold.Prelude.{
  ℕ, ◌≡◌, refl, some, List, [], ◌∷◌, ◌++◌, Bytes, Text, Result, ok, err, error, arith, list_eq,
  nat_eq, ◌==◌, if◌then◌else◌,
}
use threshold.Prelude.Dict.{Dict, lookup, insert, erase, lookup-insert, lookup-erase}
use threshold.Protocol.Codec.{Codec}
use threshold.Protocol.Transaction.{Transaction}
use threshold.Protocol.Block.{Block, zero_hash, hash}
use threshold.Abci.ChainState.{Account, DepositIntent, ChainState}
use threshold.Abci.Db.{Utxo}
use threshold.Abci.RocksDb.{
  ColumnFamily, utxos_cf, Rocks, Bincode, Formats, store_utxos, utxo_prefix,
}
use threshold.Abci.RocksDb.Contents.{
  Write, put_state, put_block, put_intent, remove_intent, family_index, Stores, Decodes, Faithful,
  contents, perform_all, apply_all,
}
use threshold.Abci.RocksDb.Refines.{perform_all-apply_all}
use threshold.Abci.RocksDb.Outputs.{store_utxos-overwrites}
use threshold.Samples

abbrev Store : Type 0
Store = Dict Bytes Bytes

abbrev at_key : ColumnFamily → Bytes → Bytes
at_key cf k = family_index cf ∷ k

-- A store in memory, whose keys begin with the number of the family.
abbrev in_memory : Rocks Store
in_memory = record {
  get_cf = λ cf k d. ok (lookup (at_key cf k) d);
  put_cf = λ cf k v d. (ok tt, insert (at_key cf k) v d);
  delete_cf = λ cf k d. (ok tt, erase (at_key cf k) d);
  iterator_cf = λ cf d. [];
}

in_memory-Stores : Stores in_memory
in_memory-Stores = record {
  get-put = λ cf cf' k k' v d h. ground (arith, lookup-insert (at_key cf k) (at_key cf' k') v d);
  get-delete = λ cf cf' k k' d h. ground (arith, lookup-erase (at_key cf k) (at_key cf' k') d);
}

-- Forms for small values; any other value cannot be encoded.
abbrev pack_intent : ℕ → Text → Text → Text → ℕ → Result Bytes
pack_intent a [] (t ∷ []) (x ∷ []) s = ok (a ∷ t ∷ x ∷ s ∷ [])
pack_intent _ _ _ _ _ = err (error "too large")

abbrev unpack_intent : Bytes → Result DepositIntent
unpack_intent (a ∷ t ∷ x ∷ s ∷ []) = ok (record {
  amount_sat = a;
  user_pubkey = [];
  deposit_tracking_id = t ∷ [];
  deposit_address = x ∷ [];
  timestamp = s;
})
unpack_intent _ = err (error "unexpected end")

abbrev pack_state : Dict Text Account → List DepositIntent → List (Transaction ℕ) → ℕ → Result Bytes
pack_state [] [] [] h = ok (h ∷ [])
pack_state _ _ _ _ = err (error "too large")

abbrev unpack_state : Bytes → Result (ChainState ℕ)
unpack_state (h ∷ []) =
    ok
      (record { accounts = []; deposit_intents = []; proposed_transactions = []; block_height = h })
unpack_state _ = err (error "unexpected end")

abbrev pack_block : ℕ → Bytes → Bytes → ℕ → Bytes → List (Transaction ℕ) → Result Bytes
pack_block v [] [] h [] [] = ok (v ∷ h ∷ [])
pack_block _ _ _ _ _ _ = err (error "too large")

abbrev unpack_block : Bytes → Result (Block ℕ)
unpack_block (v ∷ h ∷ []) = ok (record {
  header = record {
    version = v;
    previous_block_hash = [];
    state_root = [];
    height = h;
    proposer = [];
  };
  body = record { transactions = [] };
})
unpack_block _ = err (error "unexpected end")

abbrev forms : Formats ℕ
forms = record {
  block_form = record {
    encode_to_vec = λ b.
        pack_block b.header.version b.header.previous_block_hash b.header.state_root b.header.height
          b.header.proposer b.body.transactions;
    decode_from_slice = unpack_block;
  };
  state_form = record {
    encode_to_vec =
        λ s. pack_state s.accounts s.deposit_intents s.proposed_transactions s.block_height;
    decode_from_slice = unpack_state;
  };
  intent_form = record {
    encode_to_vec = λ i.
        pack_intent i.amount_sat i.user_pubkey i.deposit_tracking_id i.deposit_address i.timestamp;
    decode_from_slice = unpack_intent;
  };
  utxo_form = record {
    encode_to_vec = λ u. ok (u.outpoint.vout ∷ u.value ∷ []);
    decode_from_slice = λ bs. err (error "unexpected end");
  };
  hex_encode = λ bs. bs;
  display_txid = λ bs. bs;
}

abbrev one_digest : Codec ℕ
one_digest = record Samples.codec { sha256 = λ bs. zero_hash }

intent_back :
    (a : ℕ) (u t x : Text) (s : ℕ) (bs : Bytes)
    → pack_intent a u t x s ≡ ok bs
    → unpack_intent bs
      ≡ ok (record {
        amount_sat = a;
        user_pubkey = u;
        deposit_tracking_id = t;
        deposit_address = x;
        timestamp = s;
      })
intent_back a [] (t ∷ []) (x ∷ []) s bs h = ground arith
intent_back a [] [] x s bs h = absurd (cc)
intent_back a [] (t ∷ []) [] s bs h = absurd (cc)
intent_back a [] (t ∷ []) (x ∷ y ∷ z) s bs h = absurd (cc)
intent_back a [] (t ∷ y ∷ z) x s bs h = absurd (cc)
intent_back a (y ∷ z) t x s bs h = absurd (cc)

state_back :
    (a : Dict Text Account) (i : List DepositIntent) (t : List (Transaction ℕ)) (h : ℕ) (bs : Bytes)
    → pack_state a i t h ≡ ok bs
    → unpack_state bs
      ≡ ok (record {
        accounts = a;
        deposit_intents = i;
        proposed_transactions = t;
        block_height = h;
      })
state_back [] [] [] h bs p = ground arith
state_back [] [] (x ∷ t) h bs p = absurd (cc)
state_back [] (x ∷ i) t h bs p = absurd (cc)
state_back (x ∷ a) i t h bs p = absurd (cc)

block_back :
    (v : ℕ) (q r : Bytes) (h : ℕ) (o : Bytes) (t : List (Transaction ℕ)) (bs : Bytes)
    → pack_block v q r h o t ≡ ok bs
    → unpack_block bs
      ≡ ok (record {
        header = record {
          version = v;
          previous_block_hash = q;
          state_root = r;
          height = h;
          proposer = o;
        };
        body = record { transactions = t };
      })
block_back v [] [] h [] [] bs p = ground arith
block_back v [] [] h [] (x ∷ t) bs p = absurd (cc)
block_back v [] [] h (x ∷ o) t bs p = absurd (cc)
block_back v [] (x ∷ r) h o t bs p = absurd (cc)
block_back v (x ∷ q) r h o t bs p = absurd (cc)

forms-Faithful : Faithful forms one_digest
forms-Faithful = record {
  block_back = record {
    decode-encode = λ b.
        block_back b.header.version b.header.previous_block_hash b.header.state_root b.header.height
          b.header.proposer b.body.transactions;
  };
  state_back = record {
    decode-encode =
        λ s. state_back s.accounts s.deposit_intents s.proposed_transactions s.block_height;
  };
  intent_back = record {
    decode-encode = λ i.
        intent_back i.amount_sat i.user_pubkey i.deposit_tracking_id i.deposit_address i.timestamp;
  };
  hex_injective = λ a b h. h;
  digest_length = λ bs. refl;
}

abbrev intent : DepositIntent
intent = record {
  amount_sat = 5;
  user_pubkey = [];
  deposit_tracking_id = 7 ∷ [];
  deposit_address = 8 ∷ [];
  timestamp = 9;
}

abbrev block_2 : Block ℕ
block_2 = record {
  header = record {
    version = 1;
    previous_block_hash = [];
    state_root = [];
    height = 2;
    proposer = [];
  };
  body = record { transactions = [] };
}

abbrev height_2 : ChainState ℕ
height_2 = record {
  accounts = [];
  deposit_intents = [];
  proposed_transactions = [];
  block_height = 2;
}

abbrev writes : List (Write ℕ)
writes = put_intent intent ∷ put_block block_2 ∷ put_state height_2 ∷ remove_intent intent ∷ []

perform_all-apply_all_example :
    contents in_memory forms (perform_all in_memory forms one_digest writes []).1
    ≡ apply_all one_digest writes (contents in_memory forms [])
unfolding perform_all hash threshold.Abci.RocksDb.Contents.perform
perform_all-apply_all_example = perform_all-apply_all in_memory-Stores forms-Faithful writes [] refl

abbrev output : ℕ → ℕ → Utxo
output vout value = record {
  outpoint = record { txid = 3 ∷ []; vout = vout };
  value = value;
  script_pubkey = [];
}

store_utxos-overwrites_example :
    (bs : Bytes) × (forms.utxo_form.encode_to_vec (output 1 70) ≡ ok bs)
    × ((k : Bytes)
        → in_memory.get_cf utxos_cf k
            (store_utxos in_memory forms (output 0 50 ∷ output 1 70 ∷ []) []).1
          ≡ (if (utxo_prefix ++ (3 ∷ [])) == k
              then ok (some bs)
              else in_memory.get_cf utxos_cf k []))
unfolding store_utxos
store_utxos-overwrites_example =
    store_utxos-overwrites forms in_memory-Stores (output 0 50) (output 1 70) [] refl refl

-- ===== src/Wallet/Tests.antt =====
-- The theorems about the wallet, each at a concrete input: two coins, addresses are numbers, and a
-- transaction's id is the list of its outputs' values.
use threshold.Prelude.{
  ℕ, ◌+◌, ◌≤◌, ◌<◌, ◌≡◌, refl, arith, ◌⊎◌, true, false, none, some, List, [], ◌∷◌, ◌++◌, map, Bytes,
  Memᴰ, Permᴰ, nat_ord, ok, get_elem?, sort_by_key, sorted_insert,
}
use threshold.Wallet.Coins.{TrackedUtxo, TaprootWallet, select_utxos, select_loop}
use threshold.Wallet.Selection.{worth, select_utxos_lem}
use threshold.Wallet.Spend.{
  BitcoinTransaction, Bitcoin, create_spend, spent_input, spent_by, ingest_external_tx, sighash_of,
  is_p2tr, is_p2wpkh, spend_transaction, change_coin,
}
use threshold.Wallet.Balance.{paid, create_spend-balance}
use threshold.Prelude.{◌==◌, list_eq, nat_eq}
use threshold.Wallet.Change.{change_coin_lem}
use threshold.Wallet.Intake.{ingest_external_tx-coins}

abbrev key_script : ℕ → Bytes
key_script a =
    0 ∷ 20 ∷ a ∷ 0 ∷ 0 ∷ 0 ∷ 0 ∷ 0 ∷ 0 ∷ 0 ∷ 0 ∷ 0 ∷ 0 ∷ 0 ∷ 0 ∷ 0 ∷ 0 ∷ 0 ∷ 0 ∷ 0 ∷ 0 ∷ 0 ∷ []

abbrev bitcoin : Bitcoin ℕ
bitcoin = record {
  script_pubkey = key_script;
  compute_txid = λ tx. map (λ out. out.value) tx.output;
  p2wpkh_signature_hash = λ tx script value. ok script;
  taproot_key_spend_signature_hash = λ tx prevouts. ok [];
}

abbrev coin : ℕ → ℕ → TrackedUtxo ℕ
coin n value = record {
  utxo = record {
    outpoint = record { txid = n ∷ []; vout = 0 };
    value = value;
    script_pubkey = key_script 1;
  };
  address = 1;
}

abbrev wallet : TaprootWallet ℕ
wallet = record { addresses = 1 ∷ []; utxos = coin 5 2000 ∷ coin 6 9000 ∷ [] }

select_utxos_lem_example :
    ((selected : List (TrackedUtxo ℕ)) × (rest : List (TrackedUtxo ℕ)) × (select_utxos wallet 9500
        ≡ some selected)
      × Permᴰ (selected ++ rest) wallet.utxos
      × (9500 ≤ worth selected))
    ⊎ ((select_utxos wallet 9500 ≡ none) × (worth wallet.utxos < 9500))
select_utxos_lem_example = select_utxos_lem wallet 9500 (omega arith)

abbrev payment : BitcoinTransaction
payment = record {
  version = 2;
  lock_time = 0;
  input = spent_input (coin 6 9000) ∷ [];
  output =
      record { value = 3000; script_pubkey = key_script 7 }
      ∷ record { value = 5900; script_pubkey = key_script 1 }
      ∷ [];
}

create_spend-balance_example :
    (selected : List (TrackedUtxo ℕ)) × (rest : List (TrackedUtxo ℕ)) × (dust : ℕ) × Permᴰ
      (selected ++ rest)
      wallet.utxos
    × (payment.input ≡ map spent_input selected)
    × (dust ≤ 546)
    × (worth selected ≡ paid payment.output + 100 + dust)
unfolding create_spend select_utxos select_loop sort_by_key sorted_insert spend_transaction
    change_coin sighash_of is_p2wpkh is_p2tr
create_spend-balance_example =
    create_spend-balance bitcoin 3000 100 7 false wallet {tx = payment} {sighash = key_script 1}
      (omega arith) (omega arith) refl

ingest_external_tx-coins_example :
    let u : TrackedUtxo ℕ = record {
      utxo = record {
        outpoint = record { txid = 3000 ∷ 5900 ∷ []; vout = 1 };
        value = 5900;
        script_pubkey = key_script 1;
      };
      address = 1;
    } in
    (Memᴰ u wallet.utxos × (spent_by (map (λ i. i.previous_output) payment.input) u ≡ false))
    ⊎ ((u.utxo.outpoint.txid ≡ bitcoin.compute_txid payment)
        × (get_elem? payment.output u.utxo.outpoint.vout
            ≡ some (record { value = u.utxo.value; script_pubkey = u.utxo.script_pubkey })))
unfolding ingest_external_tx
ingest_external_tx-coins_example =
    ingest_external_tx-coins bitcoin payment wallet (Memᴰ.tail (Memᴰ.head refl))

change_coin_lem_example :
    let tx = spend_transaction bitcoin (coin 6 9000 ∷ []) 3000 7 1 5900 in
    let vout = (change_coin bitcoin tx 1 5900).utxo.outpoint.vout in
    ((key_script 7 == key_script 1) ≡ false
      → get_elem? tx.output vout ≡ some (record { value = 5900; script_pubkey = key_script 1 }))
    × ((key_script 7 == key_script 1) ≡ true
        → get_elem? tx.output vout ≡ some (record { value = 3000; script_pubkey = key_script 7 }))
change_coin_lem_example = change_coin_lem bitcoin (coin 6 9000 ∷ []) 3000 7 1 5900 (omega arith)

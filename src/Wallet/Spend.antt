-- ===== src/Wallet/Spend.antt =====
-- crates/node/src/wallet/taproot.rs: spending coins, and taking in the transactions of others. What the
-- crate bitcoin computes is a parameter: scripts of addresses, transaction ids, signature hashes.
use threshold.Prelude.{
  ℕ, ◌+◌, ◌-◌, ◌%◌, Bool, true, false, not, ◌&&◌, Option, none, some, List, [], ◌∷◌, ◌++◌, map,
  Bytes, Ord, ◌==◌, nat_eq, list_eq, ltb, add64, u64_mod, retain, find, length, if◌then◌else◌,
  Result, err, error, ok_or, Action, pure, lift, gets, modify, ◌>>=◌, ◌>>◌,
}
use threshold.Prelude.Dict.{unwrap_or}
use threshold.Abci.Db.{OutPoint}
use threshold.Wallet.Coins.{TrackedUtxo, TaprootWallet, value_of, select_utxos}

-- `bitcoin::TxIn`, `TxOut` and `Transaction`
pub record TxIn : Type 0 where
  pub previous_output : OutPoint
  pub script_sig : Bytes
  pub sequence : ℕ
  pub witness : List Bytes

pub record TxOut : Type 0 where
  pub value : ℕ
  pub script_pubkey : Bytes

pub record BitcoinTransaction : Type 0 where
  pub version : ℕ
  pub lock_time : ℕ
  pub input : List TxIn
  pub output : List TxOut

pub record Bitcoin (A : Type 0) : Type 0 where
  pub script_pubkey : A → Bytes
  pub compute_txid : BitcoinTransaction → Bytes
  pub p2wpkh_signature_hash : BitcoinTransaction → (script : Bytes) → (value : ℕ) → Result Bytes
  pub taproot_key_spend_signature_hash : BitcoinTransaction → List TxOut → Result Bytes

-- `-` on `u64` in a release build.
abbrev pub sub64 : ℕ → ℕ → ℕ
sub64 a b = (a + u64_mod - b) % u64_mod

abbrev same_point : OutPoint → OutPoint → Bool
same_point p q = (p.txid == q.txid) && (p.vout == q.vout)

-- Some point of a list is the coin's.
abbrev pub spent_by : {A : Type 0} → List OutPoint → TrackedUtxo A → Bool
spent_by [] u = false
spent_by (p ∷ ps) u = if same_point p u.utxo.outpoint then true else spent_by ps u

-- `Iterator::position`
abbrev pub position {ℓ} : {A : Type ℓ} → (A → Bool) → List A → Option ℕ
position p [] = none
position p (x ∷ xs) =
    if p x then some 0 else (elim (position p xs) [ none ↦ none | some i ↦ some (i + 1) ])

abbrev first_bytes_are : ℕ → ℕ → Bytes → Bool
first_bytes_are a b (x ∷ y ∷ bs) = (x == a) && (y == b)
first_bytes_are a b _ = false

unfoldable pub is_p2wpkh : Bytes → Bool
is_p2wpkh bytes = (length bytes == 22) && first_bytes_are 0 20 bytes

unfoldable pub is_p2tr : Bytes → Bool
is_p2tr bytes = (length bytes == 34) && first_bytes_are 81 32 bytes

module _ {A : Type 0} where
  -- `fold(0, |acc, u| acc + u.utxo.value.to_sat())`
  abbrev pub input_sum : ℕ → List (TrackedUtxo A) → ℕ
  input_sum acc [] = acc
  input_sum acc (u ∷ us) = input_sum (add64 acc (value_of u)) us

  abbrev pub spent_input : TrackedUtxo A → TxIn
  spent_input u = record {
    previous_output = u.utxo.outpoint;
    script_sig = [];
    sequence = 0;
    witness = [];
  }

  abbrev prevout : TrackedUtxo A → TxOut
  prevout u = record { value = u.utxo.value; script_pubkey = u.utxo.script_pubkey }

  abbrev pub points : List (TrackedUtxo A) → List OutPoint
  points us = map (λ u. u.utxo.outpoint) us

module _ {A : Type 0} ⦃o : Ord A⦄ where
  -- The first of the smallest addresses.
  abbrev min_address : A → List (TrackedUtxo A) → A
  min_address a [] = a
  min_address a (u ∷ us) = min_address (if o.ord_leb a u.address then a else u.address) us

  -- `min_by`, on the coins' addresses
  abbrev pub change_address_of : List (TrackedUtxo A) → Option A
  change_address_of [] = none
  change_address_of (u ∷ us) = some (min_address u.address us)

module _ {A : Type 0} (b : Bitcoin A) where
  abbrev pub change_output : A → ℕ → List TxOut
  change_output change_address change_sat =
      if ltb 546 change_sat
      then record { value = change_sat; script_pubkey = b.script_pubkey change_address } ∷ []
      else []

  unfoldable pub spend_transaction :
      List (TrackedUtxo A)
      → (amount_sat : ℕ) → (recipient change_address : A) → (change_sat : ℕ) → BitcoinTransaction
  spend_transaction selected amount_sat recipient change_address change_sat = record {
    version = 2;
    lock_time = 0;
    input = map spent_input selected;
    output =
        record { value = amount_sat; script_pubkey = b.script_pubkey recipient }
        ∷ change_output change_address change_sat;
  }

  -- The change as a coin of the wallet. Its script stands in some output, so the position is found.
  unfoldable pub change_coin : BitcoinTransaction → A → ℕ → TrackedUtxo A
  change_coin tx change_address change_sat = record {
    utxo = record {
      outpoint = record {
        txid = b.compute_txid tx;
        vout =
            unwrap_or
              (position (λ out. out.script_pubkey == b.script_pubkey change_address) tx.output) 0;
      };
      value = change_sat;
      script_pubkey = b.script_pubkey change_address;
    };
    address = change_address;
  }

  -- The signature hash of the first input, by the kind of its script.
  unfoldable pub sighash_of : BitcoinTransaction → List (TrackedUtxo A) → Result Bytes
  unfolding is_p2wpkh is_p2tr
  sighash_of tx [] = err (error "No UTXOs to sign")
  sighash_of tx (u ∷ us) =
      if is_p2wpkh u.utxo.script_pubkey
      then b.p2wpkh_signature_hash tx u.utxo.script_pubkey u.utxo.value
      else if is_p2tr u.utxo.script_pubkey
      then b.taproot_key_spend_signature_hash tx (map prevout (u ∷ us))
      else err (error "Unsupported script type")

  -- `self.utxos.retain(…)`, unless it is a dry run.
  abbrev pub drop_selected : Bool → List (TrackedUtxo A) → TaprootWallet A → TaprootWallet A
  drop_selected true selected w = w
  drop_selected false selected w = record w {
    utxos = retain (λ u. not (spent_by (points selected) u)) w.utxos;
  }

  abbrev pub track_change : Bool → BitcoinTransaction → A → ℕ → TaprootWallet A → TaprootWallet A
  track_change dry_run tx change_address change_sat w =
      if not dry_run && ltb 546 change_sat
      then record w { utxos = w.utxos ++ change_coin tx change_address change_sat ∷ [] }
      else w

  unfoldable pub create_spend :
      ⦃o : Ord A⦄
      → (amount_sat estimated_fee_sat : ℕ) → (recipient : A) → (dry_run : Bool)
      → Action (TaprootWallet A) (BitcoinTransaction × Bytes)
  unfolding select_utxos spend_transaction change_coin sighash_of
  create_spend amount_sat estimated_fee_sat recipient dry_run = do
    wallet ← gets (λ w. w)
    selected_utxos ← lift (
        ok_or (select_utxos wallet (add64 amount_sat estimated_fee_sat))
          "Not enough funds to create transaction")
    change_address ← lift (ok_or (change_address_of wallet.utxos) "No UTXOs selected")
    modify (drop_selected dry_run selected_utxos)
    let change_sat = sub64 (sub64 (input_sum 0 selected_utxos) amount_sat) estimated_fee_sat
    let tx = spend_transaction selected_utxos amount_sat recipient change_address change_sat
    modify (track_change dry_run tx change_address change_sat)
    sighash ← lift (sighash_of tx selected_utxos)
    pure (tx, sighash)

  -- The outputs to addresses of the wallet become coins, each with its number.
  abbrev pub own_outputs : BitcoinTransaction → List A → ℕ → List TxOut → List (TrackedUtxo A)
  own_outputs tx addresses i [] = []
  own_outputs tx addresses i (out ∷ outs) =
      let rest = own_outputs tx addresses (i + 1) outs in
      elim (find (λ a. b.script_pubkey a == out.script_pubkey) addresses) [
        | none ↦ rest
        | some a ↦
            record {
              utxo = record {
                outpoint = record { txid = b.compute_txid tx; vout = i };
                value = out.value;
                script_pubkey = out.script_pubkey;
              };
              address = a;
            }
            ∷ rest
      ]

  -- It never fails.
  unfoldable pub ingest_external_tx : BitcoinTransaction → TaprootWallet A → TaprootWallet A
  ingest_external_tx tx w = record w {
    utxos =
        retain (λ u. not (spent_by (map (λ i. i.previous_output) tx.input) u)) w.utxos
        ++ own_outputs tx w.addresses 0 tx.output;
  }

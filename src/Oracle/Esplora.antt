-- ===== src/Oracle/Esplora.antt =====
-- crates/oracle/src/esplora.rs: what a node learns of the bitcoin chain. The client of Esplora's server is a
-- parameter: what the server answers to each request, all of one moment. `T` is `bitcoin::Transaction`,
-- `F` the fee per virtual byte, an `f64`. Pauses between requests are left out.
pub mod Validation
pub mod Paging
mod Tests
use threshold.Prelude.{
  ℕ, zero, suc, ◌+◌, ◌-◌, ◌%◌, Bool, true, false, not, ◌&&◌, Option, none, some, List, [], ◌∷◌,
  ◌++◌, Bytes, Text, String, ◌==◌, nat_eq, list_eq, Result, ok, err, error, ok_of, ok_or, and_then,
  leb, ltb, add32, add64, u32_mod, if◌then◌else◌,
}
use threshold.Prelude.Dict.{Dict, lookup, unwrap_or}
use threshold.Abci.Db.{OutPoint, Utxo}
use threshold.Abci.Executor.{Oracle}

-- esplora_client: `Vout` and `Tx`
pub record Vout : Type 0 where
  pub value : ℕ
  pub scriptpubkey : Bytes

pub record TxInfo : Type 0 where
  pub txid : Bytes
  pub vout : List Vout
  pub confirmed : Bool
  pub block_height : Option ℕ

-- esplora_client: `AsyncClient`. The errors of the first two carry the client's text.
pub record Client (T F : Type 0) : Type 0 where
  pub get_tx_info : (txid : Bytes) → Result (Option TxInfo)
  pub get_fee_estimates : Result (Dict ℕ F)
  pub scripthash_txs : (script : Bytes) → (last_seen : Option Bytes) → Result (List TxInfo)
  pub get_tx : (txid : Bytes) → Result (Option T)
  -- whether the transaction is confirmed
  pub get_tx_status : (txid : Bytes) → Result Bool
  -- whether the output is spent
  pub get_output_status : (txid : Bytes) → (vout : ℕ) → Result (Option Bool)
  pub get_height : Result ℕ
  -- bitcoin: the outputs of a transaction, and `deserialize(&serialize(…))`
  pub outputs : T → List Vout
  pub reencode : T → Result T

-- `total_output`, as u64
unfoldable pub total_output : ℕ → List Vout → ℕ
total_output total [] = total
total_output total (output ∷ outputs) = total_output (add64 total output.value) outputs

-- The last of a page that is not empty.
abbrev pub last_of : TxInfo → List TxInfo → TxInfo
last_of tx [] = tx
last_of tx (next ∷ txs) = last_of next txs

-- `last_tx_height.is_some_and(|height| height < min_height)`
abbrev pub is_older : ℕ → Option ℕ → Bool
is_older min_height none = false
is_older min_height (some height) = ltb height min_height

-- `consensus::deserialize(&consensus::serialize(&full_tx.unwrap()))`, for what `get_tx` returned
abbrev pub read_again : {T F : Type 0} → Client T F → Result (Option T) → Result (Option T)
read_again client (err e) = ok none
read_again client (ok none) = err (error "called `Option::unwrap()` on a `None` value")
read_again client (ok (some full_tx)) = ok (ok_of (client.reencode full_tx))

abbrev pub add_page : {A : Type 0} → List A → Option (Result (List A)) → Option (Result (List A))
add_page found none = none
add_page found (some r) = some (and_then r (λ rest. ok (found ++ rest)))

abbrev pub add_address :
    {A : Type 0} → Option (Result (List A)) → Option (Result (List A)) → Option (Result (List A))
add_address none rest = none
add_address (some (err e)) rest = some (err e)
add_address (some (ok found)) rest = add_page found rest

module _ {T F : Type 0} (client : Client T F) where
  abbrev pub check_info : ℕ → TxInfo → Result Bool
  check_info amount tx =
      if not tx.confirmed
      then err (error "Transaction not confirmed")
      else if not (total_output 0 tx.vout == amount)
      then err (error "Transaction output value mismatch")
      else ok true

  -- The address is not looked at.
  unfoldable pub validate_transaction :
      (address : Text) (amount : ℕ) (tx_hash : Bytes) → Result Bool
  unfolding total_output
  validate_transaction address amount tx_hash =
      and_then (client.get_tx_info tx_hash)
        (λ found. and_then (ok_or found "Transaction not found") (check_info amount))

  unfoldable pub get_current_fee_per_vb : (priority : Option ℕ) → Result F
  get_current_fee_per_vb priority =
      and_then client.get_fee_estimates
        (λ fee. ok_or (lookup (unwrap_or priority 3) fee) "Fee not found")

  -- The outputs with the script that are known to be unspent, each with its number.
  unfoldable pub unspent_outputs : (script txid : Bytes) → ℕ → List Vout → List Utxo
  unspent_outputs script txid vout [] = []
  unspent_outputs script txid vout (output ∷ outputs) =
      let rest = unspent_outputs script txid (vout + 1) outputs in
      if not (output.scriptpubkey == script)
      then rest
      else (elim (client.get_output_status txid vout) [
        | ok (some false) ↦
            record {
              outpoint = record { txid = txid; vout = vout };
              value = output.value;
              script_pubkey = script;
            }
            ∷ rest
        | _ ↦ rest
      ])

  -- A transaction that cannot be fetched, or that is not confirmed where it has to be, is skipped.
  abbrev pub unspent_of :
      (script : Bytes)
      → (allow_unconfirmed : Bool) → (txid : Bytes) → Result (Option T)
      → Result Bool
      → List Utxo
  unspent_of script allow_unconfirmed txid (ok (some full_tx)) (ok confirmed) =
      if not allow_unconfirmed && not confirmed
      then []
      else unspent_outputs script txid 0 (client.outputs full_tx)
  unspent_of script allow_unconfirmed txid _ _ = []

  unfoldable pub unspent_of_page : Bytes → Bool → List TxInfo → List Utxo
  unfolding unspent_outputs
  unspent_of_page script allow_unconfirmed [] = []
  unspent_of_page script allow_unconfirmed (tx ∷ txs) =
      unspent_of script allow_unconfirmed tx.txid (client.get_tx tx.txid)
        (client.get_tx_status tx.txid)
      ++ unspent_of_page script allow_unconfirmed txs

  -- At most `number_pages` pages, up to the first that is empty.
  unfoldable pub refresh_utxos :
      (script : Bytes) (number_pages : ℕ) (last_seen_txid : Option Bytes) (allow_unconfirmed : Bool)
      → Result (List Utxo)
  unfolding unspent_of_page
  refresh_utxos script zero last_seen_txid allow_unconfirmed = ok []
  refresh_utxos script (suc n) last_seen_txid allow_unconfirmed =
      elim (client.scripthash_txs script last_seen_txid) [
        | err e ↦ err (error "Cannot retrieve transactions for address")
        | ok [] ↦ ok []
        | ok (tx ∷ txs) ↦
            and_then (refresh_utxos script n (some (last_of tx txs).txid) allow_unconfirmed)
              (λ rest. ok (unspent_of_page script allow_unconfirmed (tx ∷ txs) ++ rest))
      ]

  module _ (min_height max_height : ℕ) where
    abbrev pub fetch_confirmed : Bytes → Option ℕ → Result (Option T)
    fetch_confirmed txid none = ok none
    fetch_confirmed txid (some height) =
        if leb min_height height && leb height max_height
        then read_again client (client.get_tx txid)
        else ok none

    -- The transactions of a page between the heights, and whether there are any.
    unfoldable pub confirmed_of_page : List TxInfo → Result (List T × Bool)
    confirmed_of_page [] = ok ([], false)
    confirmed_of_page (tx ∷ txs) = and_then (fetch_confirmed tx.txid tx.block_height) (λ found.
        and_then (confirmed_of_page txs)
          (λ rest. ok (elim found [ none ↦ rest | some full_tx ↦ (full_tx ∷ rest.0, true) ])))

    -- The pages of one address, on fuel: `none` when it runs out.
    abbrev pub after_page :
        TxInfo → Result (List T × Bool) → Option (Result (List T)) → Option (Result (List T))
    after_page last (err e) rest = some (err e)
    after_page last (ok (found, any)) rest =
        if not any && is_older min_height last.block_height
        then some (ok found)
        else add_page found rest

    unfoldable pub confirmed_pages :
        (fuel : ℕ) (script : Bytes) (last_seen_txid : Option Bytes) → Option (Result (List T))
    unfolding confirmed_of_page
    confirmed_pages zero script last_seen_txid = none
    confirmed_pages (suc fuel) script last_seen_txid =
        elim (client.scripthash_txs script last_seen_txid) [
          | err e ↦ some (err (error "Cannot retrieve transactions for address"))
          | ok [] ↦ some (ok [])
          | ok (tx ∷ txs) ↦
              let rest = confirmed_pages fuel script (some (last_of tx txs).txid) in
              after_page (last_of tx txs) (confirmed_of_page (tx ∷ txs)) rest
        ]

  -- `-` on u32 in a release build
  abbrev pub sub32 : ℕ → ℕ → ℕ
  sub32 a b = (a + (u32_mod - b)) % u32_mod

  abbrev pub min32 : ℕ → ℕ → ℕ
  min32 a b = if leb a b then a else b

  unfoldable pub confirmed_of_all :
      (fuel min_height max_height : ℕ) → List Bytes → Option (Result (List T))
  unfolding confirmed_pages
  confirmed_of_all fuel min_height max_height [] = some (ok [])
  confirmed_of_all fuel min_height max_height (script ∷ scripts) =
      add_address (confirmed_pages min_height max_height fuel script none)
        (confirmed_of_all fuel min_height max_height scripts)

  -- An address is its script.
  unfoldable pub get_confirmed_transactions :
      (confirmation_depth fuel : ℕ)
      → (addresses : List Bytes) → (min_height max_height : ℕ) → Option (Result (List T))
  unfolding confirmed_of_all
  get_confirmed_transactions confirmation_depth fuel addresses min_height max_height =
      elim client.get_height [
        | err e ↦ some (err (error "Cannot retrieve height of blockchain"))
        | ok blockchain_height ↦
            confirmed_of_all fuel min_height
              (min32 max_height (sub32 blockchain_height confirmation_depth)) addresses
      ]

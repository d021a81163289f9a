-- ===== src/Wallet/Change.antt =====
-- taproot.rs: the coin that `create_spend` tracks for the change.
use threshold.Prelude.{
  ℕ, ◌<◌, ◌≡◌, refl, arith, true, false, some, List, ltb, ◌==◌, list_eq, nat_eq, ==_refl, get_elem?,
}
use threshold.Wallet.Coins.{TrackedUtxo}
use threshold.Wallet.Spend.{Bitcoin, spend_transaction, change_coin}

module _ {A : Type 0} (b : Bitcoin A) where
  -- The coin that a spend tracks for its change names the output that pays the change, if the script of
  -- the change differs from the recipient's; if it does not, the coin names the recipient's output.
  pub change_coin_lem :
      (selected : List (TrackedUtxo A)) (amount_sat : ℕ) (recipient change_address : A)
      (change_sat : ℕ)
      → 546 < change_sat
      → let tx = spend_transaction b selected amount_sat recipient change_address change_sat in
        let vout = (change_coin b tx change_address change_sat).utxo.outpoint.vout in
        ((b.script_pubkey recipient == b.script_pubkey change_address) ≡ false
          → get_elem? tx.output vout
            ≡ some (record { value = change_sat; script_pubkey = b.script_pubkey change_address }))
        × ((b.script_pubkey recipient == b.script_pubkey change_address) ≡ true
            → get_elem? tx.output vout
              ≡ some (record { value = amount_sat; script_pubkey = b.script_pubkey recipient }))
  unfolding spend_transaction change_coin
  change_coin_lem selected amount_sat recipient change_address change_sat large =
      let many : ltb 546 change_sat ≡ true = ground arith in
      (
        λ differs. rw (many, differs, ==_refl (b.script_pubkey change_address)) refl,
        λ same. rw (many, same) refl,
      )

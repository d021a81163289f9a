-- ===== src/Wallet/Intake.antt =====
-- taproot.rs: the coins after `ingest_external_tx`.
use threshold.Prelude.{
  ℕ, suc, ◌+◌, ◌≡◌, ap, sym, ◌∙◌, arith, ◌⊎◌, inl, inr, false, not, Option, none, some, List, [],
  ◌∷◌, map, Memᴰ, find, ◌==◌, list_eq, nat_eq, get_elem?, mem-append, mem-retain,
}
use threshold.Wallet.Coins.{TrackedUtxo, TaprootWallet}
use threshold.Wallet.Spend.{
  TxOut, BitcoinTransaction, Bitcoin, spent_by, own_outputs, ingest_external_tx,
}

module _ {A : Type 0} (b : Bitcoin A) where
  -- A coin that an output of a transaction made.
  record MadeBy (tx : BitcoinTransaction) (first : ℕ) (outs : List TxOut) (u : TrackedUtxo A)
      : Type 0 where
    txid_made : u.utxo.outpoint.txid ≡ b.compute_txid tx
    index : ℕ
    vout_made : u.utxo.outpoint.vout ≡ first + index
    output_made :
        get_elem? outs index
        ≡ some (record { value = u.utxo.value; script_pubkey = u.utxo.script_pubkey })

  later :
      {tx : BitcoinTransaction} {first : ℕ} {out : TxOut} {outs : List TxOut} {u : TrackedUtxo A}
      → MadeBy tx (first + 1) outs u
      → MadeBy tx first (out ∷ outs) u
  later m = record {
    txid_made = m.txid_made;
    index = suc m.index;
    vout_made = omega (arith, m.vout_made);
    output_made = m.output_made;
  }

  own_outputs-MadeBy :
      (tx : BitcoinTransaction) (addresses : List A) (first : ℕ) (outs : List TxOut)
      {u : TrackedUtxo A}
      → Memᴰ u (own_outputs b tx addresses first outs)
      → MadeBy tx first outs u
  own_outputs-MadeBy tx addresses first [] m = elim m [ ]
  own_outputs-MadeBy tx addresses first (out ∷ outs) {u} m =
      from_found (find (λ a. b.script_pubkey a == out.script_pubkey) addresses) m
        (λ r. own_outputs-MadeBy tx addresses (first + 1) outs r)
    where
      coin : A → TrackedUtxo A
      coin a = record {
        utxo = record {
          outpoint = record { txid = b.compute_txid tx; vout = first };
          value = out.value;
          script_pubkey = out.script_pubkey;
        };
        address = a;
      }

      made_here : (a : A) → u ≡ coin a → MadeBy tx first (out ∷ outs) u
      made_here a q = record {
        txid_made = ap (λ v. v.utxo.outpoint.txid) q;
        index = 0;
        vout_made = omega (arith, ap (λ v. v.utxo.outpoint.vout) q);
        output_made =
            ap (λ v. some (record { value = v.utxo.value; script_pubkey = v.utxo.script_pubkey }))
              (sym q);
      }

      from_found :
          (found : Option A)
          → Memᴰ u (elim found [
            | none ↦ own_outputs b tx addresses (first + 1) outs
            | some a ↦ coin a ∷ own_outputs b tx addresses (first + 1) outs
          ])
          → (Memᴰ u (own_outputs b tx addresses (first + 1) outs) → MadeBy tx (first + 1) outs u)
          → MadeBy tx first (out ∷ outs) u
      from_found none r rest = later (rest r)
      from_found (some a) (Memᴰ.head q) rest = made_here a q
      from_found (some a) (Memᴰ.tail r) rest = later (rest r)

  -- A coin of the wallet after a transaction of somebody else is a coin that it had before and that
  -- the transaction does not spend, or stands for an output of the transaction, by its number and
  -- with its value and script.
  pub ingest_external_tx-coins :
      (tx : BitcoinTransaction) (w : TaprootWallet A) {u : TrackedUtxo A}
      → Memᴰ u (ingest_external_tx b tx w).utxos
      → (Memᴰ u w.utxos × (spent_by (map (λ i. i.previous_output) tx.input) u ≡ false))
        ⊎ ((u.utxo.outpoint.txid ≡ b.compute_txid tx)
            × (get_elem? tx.output u.utxo.outpoint.vout
                ≡ some (record { value = u.utxo.value; script_pubkey = u.utxo.script_pubkey })))
  unfolding ingest_external_tx
  ingest_external_tx-coins tx w m =
      elim (mem-append _ (own_outputs b tx w.addresses 0 tx.output) m) [
        | inl kept ↦
            let (old, unspent) =
              mem-retain (λ u. not (spent_by (map (λ i. i.previous_output) tx.input) u)) w.utxos
                kept in
            inl (old, ground arith)
        | inr new ↦
            let made = own_outputs-MadeBy tx w.addresses 0 tx.output new in
            inr (
              made.txid_made,
              ap (get_elem? tx.output) (omega (arith, made.vout_made)) ∙ made.output_made,
            )
      ]

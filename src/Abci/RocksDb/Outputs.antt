-- ===== src/Abci/RocksDb/Outputs.antt =====
-- crates/abci/src/db/rocksdb.rs, `store_utxos`: the keys of a transaction's outputs.
use threshold.Prelude.{
  ◌≡◌, refl, ap, ◌==◌, nat_eq, list_eq, Bool, true, false, ◌++◌, some, [], ◌∷◌, Bytes, ok,
  then_do-ok, pure, ◌>>◌, if◌then◌else◌,
}
use threshold.Abci.Db.{Utxo}
use threshold.Abci.RocksDb.{utxos_cf, Rocks, Formats, store_utxos, utxo_prefix}
use threshold.Abci.RocksDb.Contents.{Stores}

drop_second :
    {A : Type 0} (t : Bool) (x y z : A)
    → (if t then x else if t then y else z) ≡ (if t then x else z)
drop_second true x y z = refl
drop_second false x y z = refl

-- Of two writes under one key the later one counts.
twice :
    {A : Type 0} (a b k : Bytes) (x y z : A)
    → a ≡ b
    → (if b == k then x else if a == k then y else z) ≡ (if b == k then x else z)
twice a b k x y z h = rw h (drop_second (b == k) x y z)

module _ {S J : Type 0} {rocks : Rocks S} (f : Formats J) (laws : Stores rocks) where
  -- Over a store that gives back what it took: of two outputs of one transaction that are stored, the
  -- database keeps the second only: the keys of the outputs have the transaction's id, and not the number
  -- of the output.
  pub store_utxos-overwrites :
      (u v : Utxo) (d : S)
      → u.outpoint.txid ≡ v.outpoint.txid
      → (store_utxos rocks f (u ∷ v ∷ []) d).0 ≡ ok tt
      → (bs : Bytes) × (f.utxo_form.encode_to_vec v ≡ ok bs)
        × ((k : Bytes)
            → rocks.get_cf utxos_cf k (store_utxos rocks f (u ∷ v ∷ []) d).1 ≡ (
                if (utxo_prefix ++ f.display_txid v.outpoint.txid) == k
                then ok (some bs)
                else rocks.get_cf utxos_cf k d))
  unfolding store_utxos
  store_utxos-overwrites u v d same h =
      let key = λ (w : Utxo). utxo_prefix ++ f.display_txid w.outpoint.txid in
      let (first, encoded_u, h1, end1) =
        then_do-ok (f.utxo_form.encode_to_vec u) d
          (λ bs. rocks.put_cf utxos_cf (key u) bs >> store_utxos rocks f (v ∷ [])) h in
      let (r1, d1) = rocks.put_cf utxos_cf (key u) first d in
      let (t1, put1, h2, end2) = then_do-ok r1 d1 (λ _. store_utxos rocks f (v ∷ [])) h1 in
      let (bs, encoded_v, h3, end3) =
        then_do-ok (f.utxo_form.encode_to_vec v) d1
          (λ bs. rocks.put_cf utxos_cf (key v) bs >> pure tt) h2 in
      let (r2, d2) = rocks.put_cf utxos_cf (key v) bs d1 in
      let (t2, put2, h4, end4) = then_do-ok r2 d2 (λ _. pure tt) h3 in
      (
        bs,
        encoded_v,
        λ k.
            rw
              (
                end1,
                end2,
                end3,
                end4,
                laws.get-put utxos_cf utxos_cf (key v) k bs d1 put2,
                laws.get-put utxos_cf utxos_cf (key u) k first d put1,
              )
              (twice (key u) (key v) k (ok (some bs)) (ok (some first)) (rocks.get_cf utxos_cf k d)
                (ap (λ t. utxo_prefix ++ f.display_txid t) same)),
      )

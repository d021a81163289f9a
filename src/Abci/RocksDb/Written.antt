-- ===== src/Abci/RocksDb/Written.antt =====
-- crates/abci/src/db/rocksdb.rs: which keys a write changes.
use threshold.Prelude.{
  ◌≡◌, refl, arith, ◌==◌, nat_eq, list_eq, ◌&&◌, ◌++◌, Option, none, some, List, [], ◌∷◌, Bytes,
  Result, ok, Action, then_do, then_do-ok, ◌>>◌, if◌then◌else◌,
}
use threshold.Protocol.Codec.{Codec}
use threshold.Protocol.Block.{Block, hash}
use threshold.Abci.ChainState.{DepositIntent, ChainState}
use threshold.Abci.RocksDb.{
  ColumnFamily, blocks_cf, chain_state_cf, deposit_intents_cf, Rocks, Formats, address_key,
  height_key, block_key, tip_key, current_key, insert_chain_state, insert_block,
  insert_deposit_intent, remove_deposit_intent,
}
use threshold.Abci.RocksDb.Contents.{same_family, Stores}

-- What a key holds after some changes in one family, the latest first.
abbrev pub changed :
    ColumnFamily
    → List (Bytes × Option Bytes)
    → ColumnFamily
    → Bytes
    → Result (Option Bytes)
    → Result (Option Bytes)
changed cf [] cf' k old = old
changed cf ((a, v) ∷ changes) cf' k old =
    if same_family cf cf' && (a == k) then ok v else changed cf changes cf' k old

changed-append :
    (cf : ColumnFamily) (later earlier : List (Bytes × Option Bytes)) (cf' : ColumnFamily)
    (k : Bytes) (old : Result (Option Bytes))
    → changed cf (later ++ earlier) cf' k old
      ≡ changed cf later cf' k (changed cf earlier cf' k old)
changed-append cf [] earlier cf' k old = refl
changed-append cf ((a, v) ∷ later) earlier cf' k old =
    ground (arith, changed-append cf later earlier cf' k old)

module _ {S : Type 0} (rocks : Rocks S) where
  pub record Wrote (cf : ColumnFamily) (changes : List (Bytes × Option Bytes)) (d d' : S)
      : Type 0 where
    pub reads :
        (cf' : ColumnFamily) (k : Bytes)
        → rocks.get_cf cf' k d' ≡ changed cf changes cf' k (rocks.get_cf cf' k d)

module _ {S : Type 0} {rocks : Rocks S} (laws : Stores rocks) where
  Wrote-put :
      (cf : ColumnFamily) (k v : Bytes) (d : S)
      → (rocks.put_cf cf k v d).0 ≡ ok tt
      → Wrote rocks cf ((k, some v) ∷ []) d (rocks.put_cf cf k v d).1
  Wrote-put cf k v d h = record { reads = λ cf' k'. laws.get-put cf cf' k k' v d h }

  Wrote-delete :
      (cf : ColumnFamily) (k : Bytes) (d : S)
      → (rocks.delete_cf cf k d).0 ≡ ok tt
      → Wrote rocks cf ((k, none) ∷ []) d (rocks.delete_cf cf k d).1
  Wrote-delete cf k d h = record { reads = λ cf' k'. laws.get-delete cf cf' k k' d h }

  -- Writes one after the other, in one family.
  Wrote-then :
      (cf : ColumnFamily) {first second : List (Bytes × Option Bytes)} {d : S}
      (m next : Action S (Unit {0}))
      → (then_do (m d) (λ _. next)).0 ≡ ok tt
      → ((m d).0 ≡ ok tt → Wrote rocks cf first d (m d).1)
      → ((d' : S) → (next d').0 ≡ ok tt → Wrote rocks cf second d' (next d').1)
      → Wrote rocks cf (second ++ first) d (then_do (m d) (λ _. next)).1
  Wrote-then cf {first} {second} {d} m next h start step =
      let (u, done, rest, end) = then_do-ok (m d).0 (m d).1 (λ _. next) h in
      record {
        reads = λ cf' k.
            rw
              (
                end,
                (step (m d).1 rest).reads cf' k,
                (start done).reads cf' k,
                changed-append cf second first cf' k (rocks.get_cf cf' k d),
              )
              refl;
      }

module _ {S J : Type 0} {rocks : Rocks S} (f : Formats J) (laws : Stores rocks) where
  pub insert_chain_state-Wrote :
      (s : ChainState J) (d : S)
      → (insert_chain_state rocks f s d).0 ≡ ok tt
      → (bs : Bytes) × (f.state_form.encode_to_vec s ≡ ok bs)
        × Wrote rocks chain_state_cf
            ((current_key, some bs) ∷ [])
            d
            (insert_chain_state rocks f s d).1
  unfolding insert_chain_state
  insert_chain_state-Wrote s d h =
      let (bs, encoded, put, end) =
        then_do-ok (f.state_form.encode_to_vec s) d (rocks.put_cf chain_state_cf current_key) h in
      (bs, encoded, rw end (Wrote-put laws chain_state_cf current_key bs d put))

  pub insert_block-Wrote :
      (c : Codec J) (block : Block J) (d : S)
      → (insert_block rocks f c block d).0 ≡ ok tt
      → (bs : Bytes) × (f.block_form.encode_to_vec block ≡ ok bs)
        × Wrote rocks blocks_cf
            ((tip_key, some (hash c block))
              ∷ (height_key block.header.height, some (hash c block))
              ∷ (block_key rocks f (hash c block), some bs)
              ∷ [])
            d
            (insert_block rocks f c block d).1
  unfolding insert_block
  insert_block-Wrote c block d h =
      let h_key = height_key block.header.height in
      let b_key = block_key rocks f (hash c block) in
      let (bs, encoded, put, end) =
        then_do-ok (f.block_form.encode_to_vec block) d
          (λ bs.
            rocks.put_cf blocks_cf b_key bs
            >> (rocks.put_cf blocks_cf h_key (hash c block)
                >> rocks.put_cf blocks_cf tip_key (hash c block)))
          h in
      (
        bs,
        encoded,
        rw end (
            Wrote-then laws blocks_cf (rocks.put_cf blocks_cf b_key bs)
              (rocks.put_cf blocks_cf h_key (hash c block)
                >> rocks.put_cf blocks_cf tip_key (hash c block))
              put (Wrote-put laws blocks_cf b_key bs d)
              (λ d' rest.
                Wrote-then laws blocks_cf (rocks.put_cf blocks_cf h_key (hash c block))
                  (rocks.put_cf blocks_cf tip_key (hash c block)) rest
                  (Wrote-put laws blocks_cf h_key (hash c block) d')
                  (λ e. Wrote-put laws blocks_cf tip_key (hash c block) e))),
      )

  pub insert_deposit_intent-Wrote :
      (intent : DepositIntent) (d : S)
      → (insert_deposit_intent rocks f intent d).0 ≡ ok tt
      → (bs : Bytes) × (f.intent_form.encode_to_vec intent ≡ ok bs)
        × Wrote rocks deposit_intents_cf
            ((address_key intent.deposit_address, some bs)
              ∷ (intent.deposit_tracking_id, some bs)
              ∷ [])
            d
            (insert_deposit_intent rocks f intent d).1
  unfolding insert_deposit_intent
  insert_deposit_intent-Wrote intent d h =
      let a_key = address_key intent.deposit_address in
      let t_key = intent.deposit_tracking_id in
      let (bs, encoded, put, end) =
        then_do-ok (f.intent_form.encode_to_vec intent) d
          (λ bs.
            rocks.put_cf deposit_intents_cf t_key bs >> rocks.put_cf deposit_intents_cf a_key bs)
          h in
      (
        bs,
        encoded,
        rw end (
            Wrote-then laws deposit_intents_cf (rocks.put_cf deposit_intents_cf t_key bs)
              (rocks.put_cf deposit_intents_cf a_key bs) put
              (Wrote-put laws deposit_intents_cf t_key bs d)
              (λ d'. Wrote-put laws deposit_intents_cf a_key bs d')),
      )

  pub remove_deposit_intent-Wrote :
      (intent : DepositIntent) (d : S)
      → (remove_deposit_intent rocks f intent d).0 ≡ ok tt
      → Wrote rocks deposit_intents_cf
          ((address_key intent.deposit_address, none) ∷ (intent.deposit_tracking_id, none) ∷ [])
          d
          (remove_deposit_intent rocks f intent d).1
  unfolding remove_deposit_intent
  remove_deposit_intent-Wrote intent d h =
      let a_key = address_key intent.deposit_address in
      let t_key = intent.deposit_tracking_id in
      Wrote-then laws deposit_intents_cf (rocks.delete_cf deposit_intents_cf t_key)
        (rocks.delete_cf deposit_intents_cf a_key) h (Wrote-delete laws deposit_intents_cf t_key d)
        (λ d'. Wrote-delete laws deposit_intents_cf a_key d')

-- ===== src/Abci/RocksDb/Refines.antt =====
-- crates/abci/src/db/rocksdb.rs: the writes do to what readers see what their specification says.
use threshold.Prelude.{
  ℕ, ◌≡◌, refl, ap, ◌∙◌, arith, ◌==◌, ==_iff, nat_eq, list_eq, Bool, true, false, ◌++◌, Option,
  none, some, List, [], ◌∷◌, Bytes, Text, Result, ok, then_do-ok, display, and_then,
  display-injective, if◌then◌else◌,
}
use threshold.Protocol.Codec.{Codec}
use threshold.Protocol.Block.{Block, hash, calculate_header_hash, calculate_body_hash}
use threshold.Abci.ChainState.{DepositIntent, ChainState}
use threshold.Abci.Interface.Finalize.{FlushReadsBack}
use threshold.Abci.RocksDb.{
  blocks_cf, chain_state_cf, deposit_intents_cf, Rocks, Formats, address_key, height_key,
  stored_block, stored_intent, tip_of, block_key, tip_key, current_key, get_block_by_hash,
  get_tip_block_hash, get_chain_state, get_deposit_intent, insert_chain_state, insert_block,
  insert_deposit_intent, remove_deposit_intent, flush_state, rocks_db,
}
use threshold.Abci.RocksDb.Contents.{
  Contents, Write, put_state, put_block, put_intent, remove_intent, apply, apply_all, perform,
  perform_all, contents, Stores, Faithful,
}
use threshold.Abci.RocksDb.Written.{
  Wrote, insert_chain_state-Wrote, insert_block-Wrote, insert_deposit_intent-Wrote,
  remove_deposit_intent-Wrote,
}

-- Reading what was written where a test holds.
read_if :
    {A B : Type 0} (b : Bool) (read : A → Result B) (new : A) (old : Result A) {v : Result B}
    → read new ≡ v
    → and_then (if b then ok new else old) read ≡ (if b then v else and_then old read)
read_if true read new old h = h
read_if false read new old h = refl

contents_ext :
    {J : Type 0} {v w : Contents J}
    → v.current ≡ w.current
    → ((h : Bytes) → v.block_of h ≡ w.block_of h)
    → ((height : ℕ) → v.hash_at height ≡ w.hash_at height)
    → v.tip ≡ w.tip
    → ((key : Text) → v.intent_under key ≡ w.intent_under key)
    → v ≡ w
contents_ext p q r s t = λ i. record {
  current = p i;
  block_of = λ h. q h i;
  hash_at = λ height. r height i;
  tip = s i;
  intent_under = λ key. t key i;
}

module _ {S J : Type 0} {rocks : Rocks S} {f : Formats J} {c : Codec J} (laws : Stores rocks)
    (faithful : Faithful f c) where
  height_key-same : (m n : ℕ) → (height_key m == height_key n) ≡ (m == n)
  height_key-same m n =
      ground (arith, ==_iff (display m) (display n), ==_iff m n, display-injective m n)

  block_key-same : (g h : Bytes) → (block_key rocks f g == block_key rocks f h) ≡ (g == h)
  block_key-same g h =
      ground
        (arith, ==_iff (f.hex_encode g) (f.hex_encode h), ==_iff g h, faithful.hex_injective g h)

  tip_digest : (block : Block J) → tip_of rocks f (some (hash c block)) ≡ ok (some (hash c block))
  unfolding hash
  tip_digest block =
      rw
        (faithful.digest_length
          (calculate_header_hash c block.header ++ calculate_body_hash c block.body))
        refl

  state_reads :
      (s : ChainState J) (d : S)
      → (insert_chain_state rocks f s d).0 ≡ ok tt
      → contents rocks f (insert_chain_state rocks f s d).1
        ≡ record (contents rocks f d) { current = ok (some s) }
  unfolding contents get_chain_state get_block_by_hash get_tip_block_hash get_deposit_intent
  state_reads s d h =
      let (bs, encoded, wrote) = insert_chain_state-Wrote f laws s d h in
      contents_ext
        (rw (wrote.reads chain_state_cf current_key, faithful.state_back.decode-encode s bs encoded)
          refl)
        (λ g. rw (wrote.reads blocks_cf (block_key rocks f g)) refl)
        (λ height. wrote.reads blocks_cf (height_key height))
        (rw (wrote.reads blocks_cf tip_key) refl)
        (λ key. rw (wrote.reads deposit_intents_cf key) refl)

  block_reads :
      (block : Block J) (d : S)
      → (insert_block rocks f c block d).0 ≡ ok tt
      → contents rocks f (insert_block rocks f c block d).1
        ≡ apply c (put_block block) (contents rocks f d)
  unfolding contents apply get_chain_state get_block_by_hash get_tip_block_hash get_deposit_intent
  block_reads block d h =
      let (bs, encoded, wrote) = insert_block-Wrote f laws c block d h in
      contents_ext (rw (wrote.reads chain_state_cf current_key) refl)
        (λ g.
          rw (wrote.reads blocks_cf (block_key rocks f g), block_key-same (hash c block) g)
            (read_if (hash c block == g) (λ b. ok (stored_block rocks f b)) (some bs)
              (rocks.get_cf blocks_cf (block_key rocks f g) d)
              (rw (faithful.block_back.decode-encode block bs encoded) refl)))
        (λ height.
          rw (wrote.reads blocks_cf (height_key height), height_key-same block.header.height height)
            refl)
        (rw (wrote.reads blocks_cf tip_key) (tip_digest block))
        (λ key. rw (wrote.reads deposit_intents_cf key) refl)

  -- Writing one value under an intent's two keys.
  intent_keys :
      (intent : DepositIntent) (d d' : S) (v : Option Bytes) {i : Option DepositIntent}
      → Wrote rocks deposit_intents_cf
          ((address_key intent.deposit_address, v) ∷ (intent.deposit_tracking_id, v) ∷ [])
          d
          d'
      → stored_intent rocks f v ≡ ok i
      → contents rocks f d' ≡ record (contents rocks f d) {
        intent_under = λ key.
            if address_key intent.deposit_address == key
            then ok i
            else if intent.deposit_tracking_id == key
            then ok i
            else (contents rocks f d).intent_under key;
      }
  unfolding contents get_chain_state get_block_by_hash get_tip_block_hash get_deposit_intent
  intent_keys intent d d' v {i} wrote stored =
      contents_ext (rw (wrote.reads chain_state_cf current_key) refl)
        (λ g. rw (wrote.reads blocks_cf (block_key rocks f g)) refl)
        (λ height. wrote.reads blocks_cf (height_key height))
        (rw (wrote.reads blocks_cf tip_key) refl)
        (λ key. rw (wrote.reads deposit_intents_cf key) (
          read_if (address_key intent.deposit_address == key) (stored_intent rocks f) v
            (if intent.deposit_tracking_id == key
              then ok v
              else rocks.get_cf deposit_intents_cf key d)
            stored
          ∙ ap (λ r. if address_key intent.deposit_address == key then ok i else r)
              (read_if (intent.deposit_tracking_id == key) (stored_intent rocks f) v
                (rocks.get_cf deposit_intents_cf key d) stored)))

  -- A write that succeeds does to what readers see what its specification says.
  pub perform-apply :
      (w : Write J) (d : S)
      → (perform rocks f c w d).0 ≡ ok tt
      → contents rocks f (perform rocks f c w d).1 ≡ apply c w (contents rocks f d)
  unfolding perform apply
  perform-apply (put_state s) d h = state_reads s d h
  perform-apply (put_block block) d h = block_reads block d h
  perform-apply (put_intent intent) d h =
      let (bs, encoded, wrote) = insert_deposit_intent-Wrote f laws intent d h in
      intent_keys intent d (insert_deposit_intent rocks f intent d).1 (some bs) wrote
        (rw (faithful.intent_back.decode-encode intent bs encoded) refl)
  perform-apply (remove_intent intent) d h =
      intent_keys intent d (remove_deposit_intent rocks f intent d).1 none
        (remove_deposit_intent-Wrote f laws intent d h) refl

  -- Over a store that gives back what it took, with forms that decode what they encode, a hex form that
  -- tells bytes apart and digests of 32 bytes: writes that all succeed, one after the other, do to what
  -- readers see what their specifications say, in the same order.
  pub perform_all-apply_all :
      (ws : List (Write J)) (d : S)
      → (perform_all rocks f c ws d).0 ≡ ok tt
      → contents rocks f (perform_all rocks f c ws d).1 ≡ apply_all c ws (contents rocks f d)
  unfolding perform_all apply_all
  perform_all-apply_all [] d h = refl
  perform_all-apply_all (w ∷ ws) d h =
      let (r, d1) = perform rocks f c w d in
      let (u, done, rest, end) = then_do-ok r d1 (λ _. perform_all rocks f c ws) h in
      ap (contents rocks f) end
      ∙ perform_all-apply_all ws d1 rest
      ∙ ap (apply_all c ws) (perform-apply w d done)

  -- The database keeps what `flush_state` takes.
  pub flush_state-reads_back : FlushReadsBack (rocks_db rocks f c)
  unfolding flush_state contents
  flush_state-reads_back s d h = ap (λ (v : Contents J). v.current) (state_reads s d h)

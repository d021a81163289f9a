-- ===== src/Types/Broadcast.antt =====
-- crates/types/src/broadcast.rs: one byte for the kind of a message, then the message.
use Prim.Native.String
use threshold.Prelude.{
  ℕ, ◌≡◌, refl, ◌==◌, nat_eq, if◌then◌else◌, [], ◌∷◌, Bytes, error, Result, ok, err,
}
use threshold.Abci.ChainState.{DepositIntent}
use threshold.Types.Consensus.{ConsensusMessage}
use threshold.Types.Proto.{
  Prost, ProstReadsBack, PendingSpend, encode_consensus, decode_consensus, encode_deposit_intent,
  decode_deposit_intent, encode_pending_spend, decode_pending_spend,
}
use threshold.Types.ReadBack.{
  decode-encode_consensus, decode-encode_deposit_intent, decode-encode_pending_spend,
}

pub data BroadcastMessage (T D : Type 0) : Type 0 where
  consensus : ConsensusMessage → BroadcastMessage T D
  block : Bytes → BroadcastMessage T D
  deposit_intent : DepositIntent → BroadcastMessage T D
  transaction : Bytes → BroadcastMessage T D
  pending_spend : PendingSpend T → BroadcastMessage T D
  dkg : D → BroadcastMessage T D

abbrev pub consensus_tag : ℕ
consensus_tag = 0

abbrev pub block_tag : ℕ
block_tag = 1

abbrev pub deposit_intent_tag : ℕ
deposit_intent_tag = 2

abbrev pub pending_spend_tag : ℕ
pending_spend_tag = 3

abbrev pub dkg_tag : ℕ
dkg_tag = 4

abbrev pub transaction_tag : ℕ
transaction_tag = 5

abbrev tagged : ℕ → Result Bytes → Result Bytes
tagged tag (ok payload) = ok (tag ∷ payload)
tagged tag (err e) = err e

abbrev map_ok : {A B : Type 0} → (A → B) → Result A → Result B
map_ok f (ok a) = ok (f a)
map_ok f (err e) = err e

module _ {T D : Type 0} (p : Prost T D) where
  unfoldable pub encode_broadcast : BroadcastMessage T D → Result Bytes
  unfolding encode_consensus encode_deposit_intent encode_pending_spend
  encode_broadcast (BroadcastMessage.consensus m) = tagged consensus_tag (encode_consensus p m)
  encode_broadcast (BroadcastMessage.block raw) = ok (block_tag ∷ raw)
  encode_broadcast (BroadcastMessage.deposit_intent i) =
      tagged deposit_intent_tag (encode_deposit_intent p i)
  encode_broadcast (BroadcastMessage.pending_spend s) =
      tagged pending_spend_tag (encode_pending_spend p s)
  encode_broadcast (BroadcastMessage.dkg m) = ok (dkg_tag ∷ p.encode_gossip m)
  encode_broadcast (BroadcastMessage.transaction raw) = ok (transaction_tag ∷ raw)

  abbrev decode_tagged : ℕ → Bytes → Result (BroadcastMessage T D)
  decode_tagged tag payload =
      if tag == consensus_tag
      then map_ok (λ m. BroadcastMessage.consensus m) (decode_consensus p payload)
      else if tag == block_tag
      then ok (BroadcastMessage.block payload)
      else if tag == deposit_intent_tag
      then map_ok (λ i. BroadcastMessage.deposit_intent i) (decode_deposit_intent p payload)
      else if tag == pending_spend_tag
      then map_ok (λ s. BroadcastMessage.pending_spend s) (decode_pending_spend p payload)
      else if tag == dkg_tag
      then map_ok (λ d. BroadcastMessage.dkg d) (p.decode_gossip payload)
      else if tag == transaction_tag
      then ok (BroadcastMessage.transaction payload)
      else err (error (String.◌++◌ "Unknown BroadcastMessage tag: " (p.display_u8 tag)))

  unfoldable pub decode_broadcast : Bytes → Result (BroadcastMessage T D)
  unfolding decode_consensus decode_deposit_intent decode_pending_spend
  decode_broadcast [] = err (error "Empty broadcast message")
  decode_broadcast (tag ∷ payload) = decode_tagged tag payload

tagged-ok :
    (tag : ℕ) (r : Result Bytes) (bs : Bytes)
    → tagged tag r ≡ ok bs
    → (payload : Bytes) × (r ≡ ok payload) × (bs ≡ tag ∷ payload)
tagged-ok tag (ok payload) bs h = (payload, refl, cc)
tagged-ok tag (err e) bs h = absurd (cc)

module _ {T D : Type 0} {p : Prost T D} (back : ProstReadsBack p) where
  -- What a node broadcasts, every node reads back as the same message, of whatever kind it is.
  pub decode-encode_broadcast :
      (m : BroadcastMessage T D) (bs : Bytes)
      → encode_broadcast p m ≡ ok bs
      → decode_broadcast p bs ≡ ok m
  unfolding encode_broadcast decode_broadcast
  decode-encode_broadcast (BroadcastMessage.consensus m) bs h =
      let (payload, made, form) = tagged-ok consensus_tag (encode_consensus p m) bs h in
      rw (form, decode-encode_consensus back m payload made) refl
  decode-encode_broadcast (BroadcastMessage.block raw) bs h =
      let form : bs ≡ block_tag ∷ raw = cc in rw form refl
  decode-encode_broadcast (BroadcastMessage.deposit_intent i) bs h =
      let (payload, made, form) = tagged-ok deposit_intent_tag (encode_deposit_intent p i) bs h in
      rw (form, decode-encode_deposit_intent back i payload made) refl
  decode-encode_broadcast (BroadcastMessage.transaction raw) bs h =
      let form : bs ≡ transaction_tag ∷ raw = cc in rw form refl
  decode-encode_broadcast (BroadcastMessage.pending_spend s) bs h =
      let (payload, made, form) = tagged-ok pending_spend_tag (encode_pending_spend p s) bs h in
      rw (form, decode-encode_pending_spend back s payload made) refl
  decode-encode_broadcast (BroadcastMessage.dkg d) bs h =
      let form : bs ≡ dkg_tag ∷ p.encode_gossip d = cc in rw (form, back.gossip_back d) refl

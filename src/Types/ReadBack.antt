-- ===== src/Types/ReadBack.antt =====
-- crates/types/src/consensus.rs and intents.rs: what is encoded is read back.
use threshold.Prelude.{◌≡◌, ap, refl, nat_eq, String, Bytes, error, Result, ok, err}
use threshold.Abci.ChainState.{DepositIntent}
use threshold.Types.Consensus.{VoteType, prevote, precommit, ConsensusMessage}
use threshold.Types.Proto.{
  PendingSpend, Prost, ProstReadsBack, explained, vote_type_number, to_proto, vote_type_of, vote_of,
  of_proto, encode_consensus, decode_consensus, encode_deposit_intent, decode_deposit_intent,
  encode_pending_spend, decode_pending_spend,
}

vote_type_back : (t : VoteType) → vote_type_of (vote_type_number t) ≡ ok t
vote_type_back prevote = refl
vote_type_back precommit = refl

explained-ok :
    {A : Type 0} (message : String) (r : Result A) {a : A} → explained message r ≡ ok a → r ≡ ok a
explained-ok message (ok a) h = h
explained-ok message (err (error text)) h = absurd (cc)

of_proto-to_proto : (m : ConsensusMessage) → of_proto (to_proto m) ≡ ok m
of_proto-to_proto (ConsensusMessage.leader_announcement a) = refl
of_proto-to_proto (ConsensusMessage.new_round round) = refl
of_proto-to_proto (ConsensusMessage.vote v) =
    ap
      (vote_of (record {
        round = v.round;
        height = v.height;
        block_hash = v.block_hash;
        voter = v.voter;
        vote_type = vote_type_number v.vote_type;
      }))
      (vote_type_back v.vote_type)
of_proto-to_proto (ConsensusMessage.block_proposal proposer raw_block) = refl

module _ {T D : Type 0} {p : Prost T D} (back : ProstReadsBack p) where
  pub decode-encode_consensus :
      (m : ConsensusMessage) (bs : Bytes)
      → encode_consensus p m ≡ ok bs
      → decode_consensus p bs ≡ ok m
  unfolding encode_consensus decode_consensus
  decode-encode_consensus m bs h =
      rw (back.consensus_back _ bs (explained-ok _ _ h)) (of_proto-to_proto m)

  pub decode-encode_deposit_intent :
      (i : DepositIntent) (bs : Bytes)
      → encode_deposit_intent p i ≡ ok bs
      → decode_deposit_intent p bs ≡ ok i
  unfolding encode_deposit_intent decode_deposit_intent
  decode-encode_deposit_intent i bs h = rw (back.deposit_intent_back _ bs (explained-ok _ _ h)) refl

  pub decode-encode_pending_spend :
      (s : PendingSpend T) (bs : Bytes)
      → encode_pending_spend p s ≡ ok bs
      → decode_pending_spend p bs ≡ ok s
  unfolding encode_pending_spend decode_pending_spend
  decode-encode_pending_spend s bs h =
      rw (back.pending_spend_back _ bs (explained-ok _ _ h), back.tx_back s.tx) refl

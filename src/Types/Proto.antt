-- ===== src/Types/Proto.antt =====
-- crates/types/src/consensus.rs and intents.rs: the messages as protobuf bytes. What prost generates of
-- p2p.proto is a parameter, and so are the bytes of a bitcoin transaction; `T` is
-- `bitcoin::Transaction`, `D` is `p2p_proto::GossipsubMessage`. An error, which is a `String` here, is a
-- `NodeError` of that text, and an `i32` is its bits as a number.
use Prim.Native.String
use threshold.Prelude.{
  ℕ, ◌≡◌, ◌==◌, nat_eq, if◌then◌else◌, Option, none, some, String, Bytes, Text, error, Result, ok,
  err,
}
use threshold.Abci.ChainState.{DepositIntent}
use threshold.Types.Consensus.{VoteType, prevote, precommit, ConsensusMessage}

-- What prost generates of p2p.proto.
pub record ProtoVote : Type 0 where
  pub round : ℕ
  pub height : ℕ
  pub block_hash : Bytes
  pub voter : Bytes
  pub vote_type : ℕ

pub data ProtoMessage : Type 0 where
  leader_announcement : (leader : Bytes) (round : ℕ) → ProtoMessage
  new_round : (round : ℕ) → ProtoMessage
  vote : ProtoVote → ProtoMessage
  block_proposal : (proposer raw_block : Bytes) → ProtoMessage

pub record ProtoConsensusMessage : Type 0 where
  pub message : Option ProtoMessage

pub record ProtoDepositIntent : Type 0 where
  pub amount_sat : ℕ
  pub user_pubkey : Text
  pub deposit_tracking_id : Text
  pub deposit_address : Text
  pub timestamp : ℕ

pub record ProtoPendingSpend : Type 0 where
  pub transaction : Bytes
  pub user_pubkey : Text
  pub address_to : Text
  pub recipient_script : Bytes
  pub fee : ℕ

pub record PendingSpend (T : Type 0) : Type 0 where
  pub tx : T
  pub user_pubkey : Text
  pub address_to : Text
  pub recipient_script : Bytes
  pub fee : ℕ

-- The two directions of an encoding, and what they owe.
pub record Wire (A : Type 0) : Type 0 where
  pub encode : A → Result Bytes
  pub decode : Bytes → Result A

abbrev pub RoundTrips : {A : Type 0} → Wire A → Type 0
RoundTrips {A} w = (a : A) (bs : Bytes) → w.encode a ≡ ok bs → w.decode bs ≡ ok a

pub record Prost (T D : Type 0) : Type 0 where
  pub consensus : Wire ProtoConsensusMessage
  pub deposit_intent : Wire ProtoDepositIntent
  pub pending_spend : Wire ProtoPendingSpend
  pub encode_gossip : D → Bytes
  pub decode_gossip : Bytes → Result D
  pub serialize_tx : T → Bytes
  pub deserialize_tx : Bytes → Result T
  -- std's `Display` of a `u8`
  pub display_u8 : ℕ → String

pub record ProstReadsBack {T D : Type 0} (p : Prost T D) : Type 0 where
  pub consensus_back : RoundTrips p.consensus
  pub deposit_intent_back : RoundTrips p.deposit_intent
  pub pending_spend_back : RoundTrips p.pending_spend
  pub gossip_back : (d : D) → p.decode_gossip (p.encode_gossip d) ≡ ok d
  pub tx_back : (t : T) → p.deserialize_tx (p.serialize_tx t) ≡ ok t

-- `.map_err(|e| format!("…: {e}"))`
abbrev pub explained : {A : Type 0} → String → Result A → Result A
explained message (ok a) = ok a
explained message (err (error text)) = err (error (String.◌++◌ message text))

abbrev pub vote_type_number : VoteType → ℕ
vote_type_number prevote = 0
vote_type_number precommit = 1

abbrev pub to_proto : ConsensusMessage → ProtoMessage
to_proto (ConsensusMessage.leader_announcement a) =
    ProtoMessage.leader_announcement a.leader a.round
to_proto (ConsensusMessage.new_round round) = ProtoMessage.new_round round
to_proto (ConsensusMessage.vote v) = ProtoMessage.vote (record {
  round = v.round;
  height = v.height;
  block_hash = v.block_hash;
  voter = v.voter;
  vote_type = vote_type_number v.vote_type;
})
to_proto (ConsensusMessage.block_proposal proposer raw_block) =
    ProtoMessage.block_proposal proposer raw_block

abbrev pub vote_type_of : ℕ → Result VoteType
vote_type_of n =
    if n == 0 then ok prevote else if n == 1 then ok precommit else err (error "Invalid vote type")

abbrev pub vote_of : ProtoVote → Result VoteType → Result ConsensusMessage
vote_of v (ok vote_type) = ok (
    ConsensusMessage.vote (record {
      round = v.round;
      height = v.height;
      block_hash = v.block_hash;
      voter = v.voter;
      vote_type = vote_type;
    }))
vote_of v (err e) = err e

abbrev pub of_proto : ProtoMessage → Result ConsensusMessage
of_proto (ProtoMessage.leader_announcement leader round) =
    ok (ConsensusMessage.leader_announcement (record { leader = leader; round = round }))
of_proto (ProtoMessage.new_round round) = ok (ConsensusMessage.new_round round)
of_proto (ProtoMessage.vote v) = vote_of v (vote_type_of v.vote_type)
of_proto (ProtoMessage.block_proposal proposer raw_block) =
    ok (ConsensusMessage.block_proposal proposer raw_block)

abbrev pub message_of : Result ProtoConsensusMessage → Result ConsensusMessage
message_of (err e) = err e
message_of (ok m) = elim m.message [
  | none ↦ err (error "Missing message field")
  | some message ↦ of_proto message
]

module _ {T D : Type 0} (p : Prost T D) where
  unfoldable pub encode_consensus : ConsensusMessage → Result Bytes
  encode_consensus m =
      explained "Failed to encode consensus message: "
        (p.consensus.encode (record { message = some (to_proto m) }))

  unfoldable pub decode_consensus : Bytes → Result ConsensusMessage
  decode_consensus bytes =
      message_of (explained "Failed to decode consensus message: " (p.consensus.decode bytes))

  unfoldable pub encode_deposit_intent : DepositIntent → Result Bytes
  encode_deposit_intent i = explained "Failed to encode deposit intent: " (
      p.deposit_intent.encode (record {
        amount_sat = i.amount_sat;
        user_pubkey = i.user_pubkey;
        deposit_tracking_id = i.deposit_tracking_id;
        deposit_address = i.deposit_address;
        timestamp = i.timestamp;
      }))

  abbrev intent_of : Result ProtoDepositIntent → Result DepositIntent
  intent_of (err e) = err e
  intent_of (ok i) = ok (record {
    amount_sat = i.amount_sat;
    user_pubkey = i.user_pubkey;
    deposit_tracking_id = i.deposit_tracking_id;
    deposit_address = i.deposit_address;
    timestamp = i.timestamp;
  })

  unfoldable pub decode_deposit_intent : Bytes → Result DepositIntent
  decode_deposit_intent bytes =
      intent_of (explained "Failed to decode deposit intent: " (p.deposit_intent.decode bytes))

  unfoldable pub encode_pending_spend : PendingSpend T → Result Bytes
  encode_pending_spend s = explained "Failed to encode pending spend: " (
      p.pending_spend.encode (record {
        transaction = p.serialize_tx s.tx;
        user_pubkey = s.user_pubkey;
        address_to = s.address_to;
        recipient_script = s.recipient_script;
        fee = s.fee;
      }))

  abbrev spend_with : ProtoPendingSpend → Result T → Result (PendingSpend T)
  spend_with s (err e) = err e
  spend_with s (ok tx) = ok (record {
    tx = tx;
    user_pubkey = s.user_pubkey;
    address_to = s.address_to;
    recipient_script = s.recipient_script;
    fee = s.fee;
  })

  abbrev spend_of : Result ProtoPendingSpend → Result (PendingSpend T)
  spend_of (err e) = err e
  spend_of (ok s) =
      spend_with s
        (explained "Failed to deserialize transaction: " (p.deserialize_tx s.transaction))

  unfoldable pub decode_pending_spend : Bytes → Result (PendingSpend T)
  decode_pending_spend bytes =
      spend_of (explained "Failed to decode pending spend: " (p.pending_spend.decode bytes))

-- ===== src/Types/Tests.antt =====
-- The round trip of a broadcast message at a concrete input, with a trivial encoding of one message.
use threshold.Prelude.{ℕ, ◌≡◌, refl, Option, none, some, [], ◌∷◌, Bytes, Result, ok, err, error}
use threshold.Types.Consensus.{ConsensusMessage}
use threshold.Types.Proto.{
  ProtoConsensusMessage, ProtoMessage, Wire, RoundTrips, Prost, ProstReadsBack, encode_consensus,
}
use threshold.Types.Broadcast.{
  BroadcastMessage, encode_broadcast, decode_broadcast, decode-encode_broadcast,
}
use threshold.Types.Network.{DirectMessage}
use threshold.Types.Direct.{
  ProtoDirect, direct_to_proto, direct_of_proto, direct_of_proto-direct_to_proto,
}

-- Only announcements of a new round can be sent.
abbrev encode_message : Option ProtoMessage → Result Bytes
encode_message (some (ProtoMessage.new_round round)) = ok (round ∷ [])
encode_message _ = err (error "not sent")

abbrev decode_round : Bytes → Result ProtoConsensusMessage
decode_round (round ∷ []) = ok (record { message = some (ProtoMessage.new_round round) })
decode_round _ = err (error "not read")

abbrev never : {A : Type 0} → Wire A
never = record { encode = λ a. err (error "not sent"); decode = λ bs. err (error "not read") }

abbrev first_byte : Bytes → Result ℕ
first_byte [] = err (error "empty")
first_byte (b ∷ bs) = ok b

abbrev prost : Prost ℕ ℕ
prost = record {
  consensus = record { encode = λ m. encode_message m.message; decode = decode_round };
  deposit_intent = never;
  pending_spend = never;
  encode_gossip = λ d. d ∷ [];
  decode_gossip = first_byte;
  serialize_tx = λ t. t ∷ [];
  deserialize_tx = first_byte;
  display_u8 = λ n. "";
}

message_back :
    (message : Option ProtoMessage) (bs : Bytes)
    → encode_message message ≡ ok bs
    → decode_round bs ≡ ok (record { message = message })
message_back none bs h = absurd (cc)
message_back (some (ProtoMessage.leader_announcement leader round)) bs h = absurd (cc)
message_back (some (ProtoMessage.new_round round)) bs h =
    let form : bs ≡ round ∷ [] = cc in rw form refl
message_back (some (ProtoMessage.vote v)) bs h = absurd (cc)
message_back (some (ProtoMessage.block_proposal proposer raw_block)) bs h = absurd (cc)

never_back : {A : Type 0} → RoundTrips (never {A = A})
never_back a bs h = absurd (cc)

prost_back : ProstReadsBack prost
prost_back = record {
  consensus_back = λ m bs h. message_back m.message bs h;
  deposit_intent_back = never_back;
  pending_spend_back = never_back;
  gossip_back = λ d. refl;
  tx_back = λ t. refl;
}

decode-encode_broadcast_example :
    decode_broadcast prost (0 ∷ 7 ∷ [])
    ≡ ok (BroadcastMessage.consensus (ConsensusMessage.new_round 7))
unfolding encode_broadcast encode_consensus
decode-encode_broadcast_example =
    decode-encode_broadcast prost_back (BroadcastMessage.consensus (ConsensusMessage.new_round 7))
      (0 ∷ 7 ∷ []) refl

abbrev one_byte : Wire ℕ
one_byte = record { encode = λ n. ok (n ∷ []); decode = first_byte }

one_byte_back : RoundTrips one_byte
one_byte_back n bs h = let form : bs ≡ n ∷ [] = cc in rw form refl

direct_of_proto-direct_to_proto_example :
    direct_of_proto one_byte (record { message = some (ProtoDirect.round2_package (4 ∷ [])) })
    ≡ ok (DirectMessage.round2_package 4)
unfolding direct_to_proto
direct_of_proto-direct_to_proto_example =
    direct_of_proto-direct_to_proto one_byte one_byte_back (DirectMessage.round2_package 4) refl

-- ===== src/Types/Direct.antt =====
-- crates/types/src/proto.rs: direct messages between nodes and their protobuf form. What prost generates
-- of p2p.proto is data here, and serde_json's form of a round-2 package is a parameter; an error, which is
-- a `String` in the source, is a `NodeError` of that text.
use threshold.Prelude.{
  ℕ, ◌≡◌, refl, Option, some, Bytes, Text, Result, ok, err, and_then, ok_or, or_error,
}
use threshold.Types.Network.{DirectMessage}
use threshold.Types.Proto.{Wire, RoundTrips}

-- `p2p_proto::direct_message::Message`
pub data ProtoDirect : Type 0 where
  ping : (message : Text) → ProtoDirect
  pong : ProtoDirect
  round2_package : (package_data : Bytes) → ProtoDirect
  sign_request : (sign_id : ℕ) (message : Bytes) → ProtoDirect
  sign_package : (sign_id : ℕ) (signing_package : Bytes) → ProtoDirect
  commitments : (sign_id : ℕ) (commitments : Bytes) → ProtoDirect
  signature_share : (sign_id : ℕ) (signature_share : Bytes) → ProtoDirect

-- `p2p_proto::DirectMessage`
pub record ProtoDirectMessage : Type 0 where
  pub message : Option ProtoDirect

abbrev wrap : ProtoDirect → ProtoDirectMessage
wrap message = record { message = some message }

module _ {R : Type 0} (json : Wire R) where
  -- `From`: a package that serde_json cannot write makes it panic, which is an error here.
  unfoldable pub direct_to_proto : DirectMessage R → Result ProtoDirectMessage
  direct_to_proto (DirectMessage.ping message) = ok (wrap (ProtoDirect.ping message))
  direct_to_proto DirectMessage.pong = ok (wrap ProtoDirect.pong)
  direct_to_proto (DirectMessage.round2_package sent) =
      and_then (or_error "Failed to serialize round2 package" (json.encode sent))
        (λ serialized. ok (wrap (ProtoDirect.round2_package serialized)))
  direct_to_proto (DirectMessage.sign_request sign_id message) =
      ok (wrap (ProtoDirect.sign_request sign_id message))
  direct_to_proto (DirectMessage.sign_package sign_id bytes) =
      ok (wrap (ProtoDirect.sign_package sign_id bytes))
  direct_to_proto (DirectMessage.commitments sign_id sent) =
      ok (wrap (ProtoDirect.commitments sign_id sent))
  direct_to_proto (DirectMessage.signature_share sign_id share) =
      ok (wrap (ProtoDirect.signature_share sign_id share))

  abbrev pub direct_of : ProtoDirect → Result (DirectMessage R)
  direct_of (ProtoDirect.ping message) = ok (DirectMessage.ping message)
  direct_of ProtoDirect.pong = ok DirectMessage.pong
  direct_of (ProtoDirect.round2_package package_data) =
      and_then (or_error "Failed to deserialize round2 package" (json.decode package_data))
        (λ received. ok (DirectMessage.round2_package received))
  direct_of (ProtoDirect.sign_request sign_id message) =
      ok (DirectMessage.sign_request sign_id message)
  direct_of (ProtoDirect.sign_package sign_id bytes) = ok (DirectMessage.sign_package sign_id bytes)
  direct_of (ProtoDirect.commitments sign_id sent) = ok (DirectMessage.commitments sign_id sent)
  direct_of (ProtoDirect.signature_share sign_id share) =
      ok (DirectMessage.signature_share sign_id share)

  -- `TryFrom`
  unfoldable pub direct_of_proto : ProtoDirectMessage → Result (DirectMessage R)
  direct_of_proto proto_msg = and_then (ok_or proto_msg.message "Missing message field") direct_of

  package_back :
      RoundTrips json
      → (sent : R) (r : Result Bytes) {p : ProtoDirectMessage} → json.encode sent ≡ r
      → and_then
          (or_error "Failed to serialize round2 package" r)
          (λ bs. ok (wrap (ProtoDirect.round2_package bs)))
        ≡ ok p
      → direct_of_proto p ≡ ok (DirectMessage.round2_package sent)
  unfolding direct_of_proto
  package_back back sent (ok bs) {p} made h =
      let form : p ≡ wrap (ProtoDirect.round2_package bs) = cc in rw (form, back sent bs made) refl
  package_back back sent (err e) made h = absurd (cc)

  -- Over a form of packages that reads back what it wrote: the protobuf form of a direct message, of
  -- whatever kind, is read back as that message.
  pub direct_of_proto-direct_to_proto :
      RoundTrips json
      → (m : DirectMessage R) {p : ProtoDirectMessage} → direct_to_proto m ≡ ok p
      → direct_of_proto p ≡ ok m
  unfolding direct_to_proto direct_of_proto
  direct_of_proto-direct_to_proto back (DirectMessage.ping message) {p} h =
      let form : p ≡ wrap (ProtoDirect.ping message) = cc in rw form refl
  direct_of_proto-direct_to_proto back DirectMessage.pong {p} h =
      let form : p ≡ wrap ProtoDirect.pong = cc in rw form refl
  direct_of_proto-direct_to_proto back (DirectMessage.round2_package sent) {p} h =
      package_back back sent (json.encode sent) refl h
  direct_of_proto-direct_to_proto back (DirectMessage.sign_request sign_id message) {p} h =
      let form : p ≡ wrap (ProtoDirect.sign_request sign_id message) = cc in rw form refl
  direct_of_proto-direct_to_proto back (DirectMessage.sign_package sign_id bytes) {p} h =
      let form : p ≡ wrap (ProtoDirect.sign_package sign_id bytes) = cc in rw form refl
  direct_of_proto-direct_to_proto back (DirectMessage.commitments sign_id sent) {p} h =
      let form : p ≡ wrap (ProtoDirect.commitments sign_id sent) = cc in rw form refl
  direct_of_proto-direct_to_proto back (DirectMessage.signature_share sign_id share) {p} h =
      let form : p ≡ wrap (ProtoDirect.signature_share sign_id share) = cc in rw form refl

-- ===== src/Node/Signing.antt =====
-- crates/node/src/handlers/signing: `SigningState`. One node coordinates: it asks others for commitments,
-- sends the signing package when it has enough, and aggregates the shares. frost is a parameter.
pub mod Spending
pub mod Nonces
pub mod Busy
use threshold.Prelude.{
  ℕ, zero, suc, ◌+◌, ◌%◌, Bool, true, false, not, ◌&&◌, Option, none, some, List, [], ◌∷◌, Bytes,
  Text, Eq, ◌==◌, nat_eq, Result, ok, err, error, NodeError, ok_or, Action, pure, lift, gets,
  modify, fail, ◌>>=◌, ◌>>◌, length, ltb, if◌then◌else◌,
}
use threshold.Prelude.Dict.{Dict, insert}
use threshold.Types.Network.{World, DirectMessage}
use threshold.Types.Proto.{PendingSpend}
use threshold.Wallet.Spend.{BitcoinTransaction}
use threshold.Node.{NodeState, Services, At, on_own, call, draw, logged}

pub record ActiveSigning (w : World) : Type 0 where
  pub sign_id : ℕ
  pub message : Bytes
  pub selected_peers : List w.PeerId
  pub nonces : w.SigningNonces
  pub commitments : Dict w.Identifier w.SigningCommitments
  pub signature_shares : Dict w.Identifier w.SignatureShare
  pub signing_package : Option w.SigningPackage
  pub is_coordinator : Bool

pub record SigningState (w : World) : Type 0 where
  pub active_signing : Option (ActiveSigning w)
  pub pending_spends : Dict ℕ (PendingSpend BitcoinTransaction)

-- What the source calls of frost, and of rand and hex. A panic is an error.
pub record Frost (w : World) : Type 0 where
  pub next_u64 : w.Outside → ℕ × w.Outside
  pub shuffle : List w.PeerId → w.Outside → List w.PeerId × w.Outside
  -- `round1::commit` with the package's signing share
  pub commit : w.KeyPackage → w.Outside → (w.SigningNonces × w.SigningCommitments) × w.Outside
  pub serialize_commitments : w.SigningCommitments → Option Bytes
  pub deserialize_commitments : Bytes → Option w.SigningCommitments
  -- `SigningPackage::new`
  pub new_package : Dict w.Identifier w.SigningCommitments → (message : Bytes) → w.SigningPackage
  pub serialize_package : w.SigningPackage → Option Bytes
  pub deserialize_package : Bytes → Option w.SigningPackage
  -- `round2::sign`, with the message "Failed to sign: …"
  pub sign : w.SigningPackage → w.SigningNonces → w.KeyPackage → Result w.SignatureShare
  pub serialize_share : w.SignatureShare → Bytes
  pub deserialize_share : Bytes → Option w.SignatureShare
  -- `aggregate(…).expect("Aggregate")`
  pub aggregate :
      w.SigningPackage
      → Dict w.Identifier w.SignatureShare
      → w.PublicKeyPackage
      → Result w.Signature
  pub serialize_signature : w.Signature → Option Bytes
  -- secp256k1: `schnorr::Signature::from_slice`
  pub schnorr_from_slice : Bytes → Option Bytes
  -- `hex::decode(message_hex.trim())`
  pub decode_hex_trimmed : Text → Option Bytes

abbrev pub is_some {ℓ} : {A : Type ℓ} → Option A → Bool
is_some none = false
is_some (some a) = true

-- `Iterator::take`
abbrev pub take {ℓ} : {A : Type ℓ} → ℕ → List A → List A
take zero xs = []
take (suc n) [] = []
take (suc n) (x ∷ xs) = x ∷ take n xs

abbrev pub SigningAction : World → Type 0 → Type 0
SigningAction w A = Action (At (SigningState w) w) A

-- `(min_signers - 1) as usize`, on `u16`
abbrev pub required_of : ℕ → ℕ
required_of min_signers = (min_signers + 65535) % 65536

module _ {w : World} where
  abbrev pub set_active : Option (ActiveSigning w) → SigningAction w (Unit {0})
  set_active active = on_own (modify (λ own. record own { active_signing = active }))

  -- The session, if this node coordinates it under this id.
  abbrev pub coordinated : ℕ → Option (ActiveSigning w) → Result (ActiveSigning w)
  coordinated sign_id none = err (error "No active session")
  coordinated sign_id (some active) =
      if active.is_coordinator && (active.sign_id == sign_id)
      then ok active
      else err (error "Session id mismatch")

  abbrev pub joined : ℕ → Option (ActiveSigning w) → Result (ActiveSigning w)
  joined sign_id none = err (error "No active session")
  joined sign_id (some active) =
      if active.sign_id == sign_id then ok active else err (error "Session id mismatch")

module _ {w : World} ⦃q : Eq w.Identifier⦄ (sv : Services w) (fr : Frost w) where
  -- The loop over the chosen peers: the first failure ends it.
  unfoldable pub send_requests : List w.PeerId → ℕ → Bytes → SigningAction w (Unit {0})
  send_requests [] sign_id message = pure tt
  send_requests (peer ∷ peers) sign_id message = do
    call (sv.send_private_message peer (DirectMessage.sign_request sign_id message))
    send_requests peers sign_id message

  -- The part of `start_signing_session` after the checks.
  unfoldable pub begin_session : w.KeyPackage → ℕ → ℕ → Bytes → SigningAction w (Option ℕ)
  unfolding send_requests
  begin_session key sign_id required message = do
    node ← gets (λ s. s.node)
    peer_pool ← draw (fr.shuffle node.peers)
    (nonces, own_commitments) ← draw (fr.commit key)
    set_active (
        some (record {
          sign_id = sign_id;
          message = message;
          selected_peers = take required peer_pool;
          nonces = nonces;
          commitments = insert (sv.peer_identifier node.peer_id) own_commitments [];
          signature_shares = [];
          signing_package = none;
          is_coordinator = true;
        }))
    send_requests (take required peer_pool) sign_id message
    pure (some sign_id)

  unfoldable pub start_signing_session : (message_hex : Text) → SigningAction w (Option ℕ)
  unfolding begin_session
  start_signing_session message_hex = do
    before ← gets (λ s. s)
    key ← lift (ok_or before.node.private_key_package "DKG not completed")
    public ← lift (ok_or before.node.pubkey_package "DKG not completed")
    message ← lift (ok_or (fr.decode_hex_trimmed message_hex) "Invalid hex message")
    if not (length message == 32)
        then fail "Message must be 32-byte (sighash)"
        else if is_some before.own.active_signing
        then fail "A signing session is already active"
        else do
          sign_id ← draw fr.next_u64
          min_signers ← lift (ok_or before.node.min_signers "Min signers not set")
          if ltb (length before.node.peers) (required_of min_signers)
              then fail "Not enough peers"
              else begin_session key sign_id (required_of min_signers) message

  -- A participant commits, and forgets what session it was in.
  unfoldable pub join_session :
      w.PeerId → ℕ → Bytes → Option w.KeyPackage → SigningAction w (Unit {0})
  join_session peer sign_id message none =
      logged (call (sv.send_private_message peer (DirectMessage.commitments sign_id [])))
  join_session peer sign_id message (some key) = do
    (nonces, own_commitments) ← draw (fr.commit key)
    set_active (
        some (record {
          sign_id = sign_id;
          message = message;
          selected_peers = [];
          nonces = nonces;
          commitments = [];
          signature_shares = [];
          signing_package = none;
          is_coordinator = false;
        }))
    commit_bytes ←
        lift (ok_or (fr.serialize_commitments own_commitments) "Failed to serialize commitments")
    logged (call (sv.send_private_message peer (DirectMessage.commitments sign_id commit_bytes)))

  unfoldable pub handle_sign_request : w.PeerId → ℕ → Bytes → SigningAction w (Unit {0})
  unfolding join_session
  handle_sign_request peer sign_id message = do
    key ← gets (λ s. s.node.private_key_package)
    join_session peer sign_id message key

  -- The loop over the peers of the session: a failure to send is ignored.
  unfoldable pub send_packages : List w.PeerId → ℕ → Bytes → SigningAction w (Unit {0})
  send_packages [] sign_id pkg_bytes = pure tt
  send_packages (peer ∷ peers) sign_id pkg_bytes = do
    logged (call (sv.send_private_message peer (DirectMessage.sign_package sign_id pkg_bytes)))
    send_packages peers sign_id pkg_bytes

  -- What the coordinator does when it has all commitments.
  unfoldable pub distribute_package : ActiveSigning w → ℕ → SigningAction w (Unit {0})
  unfolding send_packages
  distribute_package active sign_id = do
    let signing_package = fr.new_package active.commitments active.message
    let packaged : ActiveSigning w = record active { signing_package = some signing_package }
    set_active (some packaged)
    pkg_bytes ←
        lift (ok_or (fr.serialize_package signing_package) "Failed to serialize signing package")
    send_packages active.selected_peers sign_id pkg_bytes
    node ← gets (λ s. s.node)
    key ← lift (ok_or node.private_key_package "No private key found")
    sig_share ← lift (fr.sign signing_package active.nonces key)
    set_active (
        some (record packaged {
          signature_shares =
              insert (sv.peer_identifier node.peer_id) sig_share active.signature_shares;
        }))

  unfoldable pub handle_commitments_response : w.PeerId → ℕ → Bytes → SigningAction w (Unit {0})
  unfolding distribute_package
  handle_commitments_response peer sign_id commitments_bytes = do
    before ← gets (λ s. s)
    active ← lift (coordinated sign_id before.own.active_signing)
    received ←
        lift
          (ok_or (fr.deserialize_commitments commitments_bytes) "Failed to deserialize commitments")
    let counted : ActiveSigning w = record active {
      commitments = insert (sv.peer_identifier peer) received active.commitments;
    }
    set_active (some counted)
    min_signers ← lift (ok_or before.node.min_signers "Min signers not set")
    if length counted.commitments == min_signers
        then distribute_package counted sign_id
        else pure tt

  unfoldable pub handle_sign_package : w.PeerId → ℕ → Bytes → SigningAction w (Unit {0})
  handle_sign_package peer sign_id package_bytes = do
    before ← gets (λ s. s)
    active ← lift (joined sign_id before.own.active_signing)
    signing_package ←
        lift (ok_or (fr.deserialize_package package_bytes) "Failed to deserialize signing package")
    key ← lift (ok_or before.node.private_key_package "No private key found")
    sig_share ← lift (fr.sign signing_package active.nonces key)
    logged (
        call (
          sv.send_private_message peer
            (DirectMessage.signature_share sign_id (fr.serialize_share sig_share))))
    set_active none

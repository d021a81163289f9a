-- ===== src/Node/Signing/Spending.antt =====
-- crates/node/src/handlers/signing: shares that make a signature, spends that wait for one (utils.rs), and
-- the handler (handler.rs).
use threshold.Prelude.{
  ℕ, Bool, false, Option, none, some, List, [], ◌∷◌, Bytes, Text, Eq, ◌==◌, nat_eq, Result, ok, err,
  ok_or, pure, lift, gets, modify, ◌>>=◌, ◌>>◌, length, if◌then◌else◌,
}
use threshold.Prelude.Dict.{lookup, insert, erase, unwrap_or}
use threshold.Types.Network.{World, DirectMessage, SelfRequest, SelfResponse, NetworkEvent}
use threshold.Types.Proto.{PendingSpend}
use threshold.Wallet.Spend.{BitcoinTransaction, TxIn}
use threshold.Node.{Services, At, on_own, on_wallet, answer}
use threshold.Node.Withdrawal.{handle_signed_withdrawal}
use threshold.Node.Signing.{
  ActiveSigning, SigningState, Frost, SigningAction, set_active, coordinated, take,
  start_signing_session, handle_sign_request, handle_commitments_response, handle_sign_package,
}

-- `if let Some(input) = tx.input.first_mut()`
abbrev pub set_witness : Bytes → List TxIn → List TxIn
set_witness signature [] = []
set_witness signature (input ∷ inputs) = record input { witness = signature ∷ [] } ∷ inputs

module _ {w : World} ⦃q : Eq w.Identifier⦄ (sv : Services w) (fr : Frost w) where
  -- The 64 bytes of a signature of 64 or 65.
  abbrev pub schnorr_bytes : Bytes → Option Bytes
  schnorr_bytes sig_bytes =
      if length sig_bytes == 64
      then some sig_bytes
      else if length sig_bytes == 65
      then some (take 64 sig_bytes)
      else none

  abbrev pub option_bind : {A B : Type 0} → Option A → (A → Option B) → Option B
  option_bind none f = none
  option_bind (some a) f = f a

  -- Its errors are only logged.
  unfoldable pub frost_signature_to_bitcoin : w.Signature → Option Bytes
  frost_signature_to_bitcoin frost_sig =
      option_bind (fr.serialize_signature frost_sig)
        (λ sig_bytes. option_bind (schnorr_bytes sig_bytes) fr.schnorr_from_slice)

  -- A spend that waits for the signature is sent; it waits no more, also if that fails.
  unfoldable pub finish_spend :
      Option (PendingSpend BitcoinTransaction) → Option Bytes → SigningAction w (Unit {0})
  finish_spend none signature = pure tt
  finish_spend (some pending) none = pure tt
  finish_spend (some pending) (some signature) =
      handle_signed_withdrawal sv
        (record pending.tx { input = set_witness signature pending.tx.input }) pending.fee
        pending.user_pubkey pending.address_to

  -- What the coordinator does when it has all shares.
  unfoldable pub aggregate_shares : ActiveSigning w → ℕ → SigningAction w (Unit {0})
  unfolding frost_signature_to_bitcoin finish_spend
  aggregate_shares active sign_id = do
    signing_package ← lift (ok_or active.signing_package "No signing package found")
    node ← gets (λ s. s.node)
    public ← lift (ok_or node.pubkey_package "No public key found")
    group_sig ← lift (fr.aggregate signing_package active.signature_shares public)
    serialized ← lift (ok_or (fr.serialize_signature group_sig) "serialize group sig")
    pending ← gets (λ s. lookup sign_id s.own.pending_spends)
    on_own (modify (λ own. record own { pending_spends = erase sign_id own.pending_spends }))
    finish_spend pending (frost_signature_to_bitcoin group_sig)
    set_active none

  unfoldable pub handle_signature_share : w.PeerId → ℕ → Bytes → SigningAction w (Unit {0})
  unfolding aggregate_shares
  handle_signature_share peer sign_id sig_bytes = do
    before ← gets (λ s. s)
    active ← lift (coordinated sign_id before.own.active_signing)
    sig_share ←
        lift (ok_or (fr.deserialize_share sig_bytes) "Failed to deserialize signature share")
    let counted : ActiveSigning w = record active {
      signature_shares = insert (sv.peer_identifier peer) sig_share active.signature_shares;
    }
    set_active (some counted)
    min_signers ← lift (ok_or before.node.min_signers "Min signers not set")
    if length counted.signature_shares == min_signers
        then aggregate_shares counted sign_id
        else pure tt

  -- The part of `start_spend_request` after the session has started.
  abbrev pub await_signature :
      (script_pubkey : w.Address → Bytes)
      → w.Address
      → (address user_pubkey : Text) (fee : ℕ) → BitcoinTransaction
      → (sighash_hex : Text) → Option (ActiveSigning w)
      → SigningAction w (Option Text)
  await_signature script_pubkey addr address user_pubkey fee tx sighash_hex none = pure none
  await_signature script_pubkey addr address user_pubkey fee tx sighash_hex (some active) = do
    on_own (
        modify (λ own. record own {
          pending_spends =
              insert active.sign_id
                (record {
                  tx = tx;
                  user_pubkey = user_pubkey;
                  address_to = address;
                  recipient_script = script_pubkey addr;
                  fee = fee;
                })
                own.pending_spends;
        }))
    pure (some sighash_hex)

  -- A failure is only logged, and `None` is the result: the `?` of the source's early returns.
  abbrev pub or_none :
      {A : Type 0}
      → (A → SigningAction w (Option Text))
      → Result A × At (SigningState w) w
      → Result (Option Text) × At (SigningState w) w
  or_none f (ok a, s) = f a s
  or_none f (err e, s) = (ok none, s)

  unfoldable pub start_spend_request :
      (script_pubkey : w.Address → Bytes)
      → (amount_sat estimated_fee_sat : ℕ) → (address user_pubkey : Text) → (dry_run : Bool)
      → SigningAction w (Option Text)
  start_spend_request script_pubkey amount_sat fee address user_pubkey dry_run s =
      or_none
        (λ addr s1.
          or_none
            (λ spend s2.
              or_none
                (λ started s3.
                  await_signature script_pubkey addr address user_pubkey fee spend.0
                    (sv.hex_encode spend.1) s3.own.active_signing s3)
                (start_signing_session sv fr (sv.hex_encode spend.1) s2))
            (on_wallet (sv.create_spend amount_sat fee addr dry_run) s1))
        (sv.parse_address address, s)

  -- "No sighash"
  abbrev no_sighash : Text
  no_sighash = 78 ∷ 111 ∷ 32 ∷ 115 ∷ 105 ∷ 103 ∷ 104 ∷ 97 ∷ 115 ∷ 104 ∷ []

  unfoldable pub handle :
      (script_pubkey : w.Address → Bytes) → NetworkEvent w → SigningAction w (Unit {0})
  unfolding start_spend_request handle_signature_share
  handle script_pubkey
        (NetworkEvent.self_request (SelfRequest.start_signing_session hex_message) channel) =
      do sign_id ← start_signing_session sv fr hex_message; pure tt
  handle script_pubkey
        (NetworkEvent.self_request
          (SelfRequest.spend amount_sat fee address_to user_pubkey)
          channel) =
      do
        response ← start_spend_request script_pubkey amount_sat fee address_to user_pubkey false
        answer sv channel (SelfResponse.spend_request_sent (unwrap_or response no_sighash))
  handle script_pubkey
        (NetworkEvent.message_event peer (DirectMessage.sign_request sign_id message)) =
      handle_sign_request sv fr peer sign_id message
  handle script_pubkey
        (NetworkEvent.message_event peer (DirectMessage.sign_package sign_id package_bytes)) =
      handle_sign_package sv fr peer sign_id package_bytes
  handle script_pubkey
        (NetworkEvent.message_event peer (DirectMessage.commitments sign_id commitments_bytes)) =
      handle_commitments_response sv fr peer sign_id commitments_bytes
  handle script_pubkey
        (NetworkEvent.message_event peer (DirectMessage.signature_share sign_id sig_bytes)) =
      handle_signature_share peer sign_id sig_bytes
  handle script_pubkey _ = pure tt

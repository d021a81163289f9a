-- ===== src/Node/Withdrawal.antt =====
-- crates/node/src/handlers/withdrawl: `SpendIntentState`. A withdrawal is proposed, which makes a
-- challenge, and confirmed by a signature of the challenge; other nodes hear of it when it is signed.
-- A panic is an error here, with the panic's text.
pub mod Confirm
pub mod Propose
use threshold.Prelude.{
  ℕ, ◌*◌, ◌%◌, Bool, true, false, Option, none, some, List, [], ◌∷◌, Bytes, Text, ◌==◌, nat_eq,
  list_eq, Result, ok, err, error, ok_or, Action, pure, lift, gets, modify, fail, and_then, ◌>>=◌,
  ◌>>◌, find, length, ltb, add64, u64_mod, if◌then◌else◌,
}
use threshold.Prelude.Dict.{Dict, lookup, insert, erase}
use threshold.Protocol.Transaction.{create_withdrawal_transaction}
use threshold.Abci.ChainState.{Account}
use threshold.Abci.Messages.{ChainMessage, ChainResponse}
use threshold.Types.Network.{
  World, WithdrawlIntent, SelfRequest, SelfResponse, NetworkEvent, Broadcast,
}
use threshold.Types.Proto.{PendingSpend}
use threshold.Types.Broadcast.{BroadcastMessage, decode_broadcast}
use threshold.Wallet.Spend.{BitcoinTransaction, TxOut}
use threshold.Node.{NodeState, Services, At, on_own, on_wallet, call, answer, expect_added}

pub record SpendIntentState : Type 0 where
  pub pending_intents : Dict Text (WithdrawlIntent × ℕ)

-- The crates secp256k1, hex and sha2, for public keys `K`, signatures `G` and messages `M`.
pub record Secp (K G M : Type 0) : Type 0 where
  pub parse_public_key : Text → Result K
  pub signature_from_der : Bytes → Result G
  pub from_digest_slice : Bytes → Result M
  pub verify_ecdsa : M → G → K → Bool
  pub hex_decode : Text → Result Bytes
  pub hex_encode : Bytes → Text
  pub sha256 : Bytes → Bytes

unfoldable pub verify_signature :
    {K G M : Type 0} → Secp K G M → (message_hex signature_hex public_key_hex : Text) → Result Bool
verify_signature c message_hex signature_hex public_key_hex =
    and_then (c.parse_public_key public_key_hex) (λ public_key.
      and_then (c.hex_decode signature_hex) (λ signature_bytes.
        and_then (c.signature_from_der signature_bytes) (λ signature.
          and_then (c.hex_decode message_hex) (λ msg_bytes.
            if length msg_bytes == 32
            then and_then (c.from_digest_slice msg_bytes)
                (λ message. ok (c.verify_ecdsa message signature public_key))
            else err (error "Message must be 32 bytes")))))

module _ {J : Type 0} where
  -- What the chain has to answer; anything else is an error.
  abbrev pub expect_account : ChainResponse J → Result (Option Account)
  expect_account (ChainResponse.get_account account) = ok account
  expect_account _ = err (error "Failed to get account")

-- `tx.output[0]`
abbrev pub first_output : List TxOut → Result TxOut
first_output [] = err (error "index out of bounds")
first_output (out ∷ outs) = ok out

-- `HashMap::remove`: what the key had, which it has no more.
abbrev pub remove_intent : Text → Action SpendIntentState (Option (WithdrawlIntent × ℕ))
remove_intent challenge own = (
  ok (lookup challenge own.pending_intents),
  record { pending_intents = erase challenge own.pending_intents },
)

module _ {w : World} (sv : Services w) where
  -- `AddTransactionToBlock`, and the check of the chain's answer.
  abbrev pub add_withdrawal :
      {H : Type 0} → (user_pubkey address_to : Text) (amount : ℕ) → Action (At H w) (Unit {0})
  add_withdrawal user_pubkey address_to amount = do
    response ← call (
        sv.ask_chain (
          ChainMessage.add_transaction_to_block
            (create_withdrawal_transaction sv.metadata user_pubkey address_to amount)))
    lift (expect_added response)

  -- The part of `propose_withdrawal` after the checks.
  unfoldable pub quote_withdrawal :
      {K G M : Type 0}
      → Secp K G M
      → (nonce : Bytes) → WithdrawlIntent
      → Action (At SpendIntentState w) (ℕ × Text)
  quote_withdrawal c nonce intent = do
    rate ← call (sv.get_current_fee_per_vb intent.blocks_to_confirm)
    estimated_fee ← lift (sv.fee_of rate 120)
    address ← lift (sv.parse_address intent.address_to)
    (tx, sighash) ← on_wallet (sv.create_spend intent.amount_sat estimated_fee address true)
    size_fee ← lift (sv.fee_of rate (sv.vsize tx))
    let fee = (size_fee * 2) % u64_mod
    let challenge_hex = c.hex_encode (c.sha256 nonce)
    on_own (
        modify (λ own. record own {
          pending_intents = insert challenge_hex (intent, fee) own.pending_intents;
        }))
    pure (add64 intent.amount_sat fee, challenge_hex)

  -- The random nonce is an argument.
  unfoldable pub propose_withdrawal :
      {K G M : Type 0}
      → Secp K G M
      → (nonce : Bytes) → WithdrawlIntent
      → Action (At SpendIntentState w) (ℕ × Text)
  unfolding quote_withdrawal
  propose_withdrawal c nonce intent = do
    response ← call (sv.ask_chain (ChainMessage.get_account intent.public_key))
    found ← lift (expect_account response)
    account ← lift (ok_or found "Account not found")
    if ltb account.balance intent.amount_sat
        then fail "Insufficient balance"
        else quote_withdrawal c nonce intent

  -- The part of `confirm_withdrawal` for a challenge that was pending.
  unfoldable pub confirm_pending :
      {K G M : Type 0}
      → Secp K G M
      → (challenge signature : Text) → WithdrawlIntent
      → ℕ
      → Action (At SpendIntentState w) (Unit {0})
  confirm_pending c challenge signature intent fee = do
    valid ← lift (verify_signature c challenge signature intent.public_key)
    if valid
        then call (
            sv.send_self_request
              (SelfRequest.spend intent.amount_sat fee intent.address_to intent.public_key) false)
        else fail "Invalid signature"

  abbrev pub confirm_removed :
      {K G M : Type 0}
      → Secp K G M
      → (challenge signature : Text) → Option (WithdrawlIntent × ℕ)
      → Action (At SpendIntentState w) (Unit {0})
  confirm_removed c challenge signature none = fail "Challenge not found"
  confirm_removed c challenge signature (some (intent, fee)) =
      confirm_pending c challenge signature intent fee

  unfoldable pub confirm_withdrawal :
      {K G M : Type 0}
      → Secp K G M
      → (challenge signature : Text) → Action (At SpendIntentState w) (Unit {0})
  unfolding confirm_pending
  confirm_withdrawal c challenge signature = do
    removed ← on_own (remove_intent challenge)
    confirm_removed c challenge signature removed

  unfoldable pub handle_signed_withdrawal :
      {H : Type 0}
      → BitcoinTransaction
      → (fee : ℕ) → (user_pubkey address_to : Text) → Action (At H w) (Unit {0})
  handle_signed_withdrawal tx fee user_pubkey address_to = do
    call (sv.broadcast_transaction tx)
    out ← lift (first_output tx.output)
    add_withdrawal user_pubkey address_to (add64 out.value fee)
    call (
        sv.send_broadcast (
          BroadcastMessage.pending_spend (record {
            tx = tx;
            user_pubkey = user_pubkey;
            address_to = address_to;
            recipient_script = out.script_pubkey;
            fee = fee;
          })))

  unfoldable pub handle_withdrawl_message :
      PendingSpend BitcoinTransaction → Action (At SpendIntentState w) (Unit {0})
  handle_withdrawl_message pending = do
    call (sv.broadcast_transaction pending.tx)
    on_wallet (sv.ingest_external_tx pending.tx)
    pay_out ← lift (
        ok_or (find (λ o. o.script_pubkey == pending.recipient_script) pending.tx.output)
          "payment output not found")
    add_withdrawal pending.user_pubkey pending.address_to (add64 pay_out.value pending.fee)

  abbrev pub handle_broadcast : Broadcast w → Action (At SpendIntentState w) (Unit {0})
  handle_broadcast (BroadcastMessage.pending_spend spend_intent) =
      handle_withdrawl_message spend_intent
  handle_broadcast _ = pure tt

  unfoldable pub handle :
      {K G M : Type 0}
      → Secp K G M
      → (nonce : Bytes) → NetworkEvent w
      → Action (At SpendIntentState w) (Unit {0})
  unfolding propose_withdrawal confirm_withdrawal handle_withdrawl_message
  handle c nonce (NetworkEvent.self_request (SelfRequest.propose_withdrawal intent) channel) = do
    (total_amount, challenge) ← propose_withdrawal c nonce intent
    answer sv channel (SelfResponse.propose_withdrawal total_amount challenge)
  handle c nonce
        (NetworkEvent.self_request (SelfRequest.confirm_withdrawal challenge signature) channel) =
      do
        confirm_withdrawal c challenge signature
        answer sv channel (SelfResponse.confirm_withdrawal true)
  handle c nonce (NetworkEvent.gossipsub_message message) = do
    broadcast ← lift (decode_broadcast sv.prost message.payload)
    handle_broadcast broadcast
  handle c nonce _ = pure tt

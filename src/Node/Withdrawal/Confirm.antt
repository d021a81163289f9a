-- ===== src/Node/Withdrawal/Confirm.antt =====
-- crates/node/src/handlers/withdrawl/create_withdrawl.rs, `confirm_withdrawal`: a challenge is good for
-- one confirmation, and only a valid signature leads to a spend.
use threshold.Prelude.{
  ◌≡◌, refl, arith, ℕ, true, false, Option, none, some, Text, list_eq, nat_eq, ==_refl, ok, err,
  error,
}
use threshold.Prelude.Dict.{lookup, lookup-erase, erase-absent}
use threshold.Types.Network.{World, WithdrawlIntent, SelfRequest}
use threshold.Node.{Services, At, on_own}
use threshold.Node.Withdrawal.{
  SpendIntentState, Secp, verify_signature, confirm_pending, confirm_withdrawal, confirm_removed,
  remove_intent,
}

module _ {w : World} (sv : Services w) {K G M : Type 0} (c : Secp K G M) where
  -- What a confirmation may do after the challenge is removed.
  confirm_removed-own :
      (challenge signature : Text) (o : Option (WithdrawlIntent × ℕ)) (s : At SpendIntentState w)
      → (confirm_removed sv c challenge signature o s).1.own ≡ s.own
  unfolding confirm_pending
  confirm_removed-own challenge signature none s = refl
  confirm_removed-own challenge signature (some (intent, fee)) s = ground arith

  confirm_unknown :
      (challenge signature : Text) (s : At SpendIntentState w)
      → lookup challenge s.own.pending_intents ≡ none
      → confirm_withdrawal sv c challenge signature s ≡ (err (error "Challenge not found"), s)
  unfolding confirm_withdrawal
  confirm_unknown challenge signature s h =
      rw (h, erase-absent challenge s.own.pending_intents h) refl

  confirm_forgets :
      (challenge signature : Text) (s : At SpendIntentState w)
      → lookup challenge (confirm_withdrawal sv c challenge signature s).1.own.pending_intents
        ≡ none
  unfolding confirm_withdrawal
  confirm_forgets challenge signature s =
      let pending = s.own.pending_intents in
      let gone = lookup-erase challenge challenge pending in
      let (r, rest) = on_own (remove_intent challenge) s in
      rw
        (
          confirm_removed-own challenge signature (lookup challenge pending) rest,
          gone,
          ==_refl challenge,
        )
        refl

  -- After a confirmation, whether it succeeds or fails, its challenge is unknown: a second one with
  -- any signature is refused and changes nothing.
  pub confirm_withdrawal-once :
      (challenge signature signature' : Text) (s : At SpendIntentState w)
      → let s' = (confirm_withdrawal sv c challenge signature s).1 in
        confirm_withdrawal sv c challenge signature' s' ≡ (err (error "Challenge not found"), s')
  confirm_withdrawal-once challenge signature signature' s =
      confirm_unknown challenge signature' (confirm_withdrawal sv c challenge signature s).1
        (confirm_forgets challenge signature s)

  -- What a confirmation that succeeds has checked, and the request that it sends.
  signed_pending :
      (challenge signature : Text) (intent : WithdrawlIntent) (fee : ℕ) (s : At SpendIntentState w)
      → (confirm_pending sv c challenge signature intent fee s).0 ≡ ok tt
      → (verify_signature c challenge signature intent.public_key ≡ ok true)
        × ((confirm_pending sv c challenge signature intent fee s).1.node.outside
            ≡ (sv.send_self_request
                (SelfRequest.spend intent.amount_sat fee intent.address_to intent.public_key)
                false
                s.node.outside).1)
  unfolding confirm_pending
  signed_pending challenge signature intent fee s h = ground arith

  signed_removed :
      (challenge signature : Text) (o : Option (WithdrawlIntent × ℕ)) (s : At SpendIntentState w)
      → (confirm_removed sv c challenge signature o s).0 ≡ ok tt
      → (intent : WithdrawlIntent) × (fee : ℕ) × (o ≡ some (intent, fee))
        × (verify_signature c challenge signature intent.public_key ≡ ok true)
        × ((confirm_removed sv c challenge signature o s).1.node.outside
            ≡ (sv.send_self_request
                (SelfRequest.spend intent.amount_sat fee intent.address_to intent.public_key)
                false
                s.node.outside).1)
  signed_removed challenge signature none s h = absurd (cc)
  signed_removed challenge signature (some (intent, fee)) s h =
      let (valid, sent) = signed_pending challenge signature intent fee s h in
      (intent, fee, refl, valid, sent)

  -- A confirmation that succeeds is of a pending challenge, with a signature by the key of its intent;
  -- the node then asks for one spend, of the amount, the fee and the address of the intent.
  pub confirm_withdrawal-signed :
      (challenge signature : Text) (s : At SpendIntentState w)
      → (confirm_withdrawal sv c challenge signature s).0 ≡ ok tt
      → (intent : WithdrawlIntent) × (fee : ℕ) × (lookup challenge s.own.pending_intents
          ≡ some (intent, fee))
        × (verify_signature c challenge signature intent.public_key ≡ ok true)
        × ((confirm_withdrawal sv c challenge signature s).1.node.outside
            ≡ (sv.send_self_request
                (SelfRequest.spend intent.amount_sat fee intent.address_to intent.public_key)
                false
                s.node.outside).1)
  unfolding confirm_withdrawal
  confirm_withdrawal-signed challenge signature s h =
      let (r, rest) = on_own (remove_intent challenge) s in
      signed_removed challenge signature (lookup challenge s.own.pending_intents) rest h

-- ===== src/Node/Withdrawal/Propose.antt =====
-- crates/node/src/handlers/withdrawl/create_withdrawl.rs, `propose_withdrawal`: what a quote promises, and
-- that the confirmation keeps it.
use threshold.Prelude.{
  ◌≡◌, refl, sym, ap, ◌∙◌, inl, inr, arith, ℕ, ◌≤◌, ◌*◌, ◌%◌, u64_mod, true, false, some, Bytes,
  Text, list_eq, nat_eq, ok, Result-cases, Bool-cases, add64, ltb,
}
use threshold.Prelude.Dict.{lookup, lookup-insert_self}
use threshold.Abci.ChainState.{Account}
use threshold.Abci.Messages.{ChainMessage, ChainResponse}
use threshold.Types.Network.{World, WithdrawlIntent, SelfRequest}
use threshold.Node.{Services, At, call}
use threshold.Node.Withdrawal.{
  SpendIntentState, Secp, verify_signature, quote_withdrawal, propose_withdrawal,
  confirm_withdrawal,
}
use threshold.Node.Withdrawal.Confirm.{confirm_withdrawal-signed}

module _ {w : World} (sv : Services w) {K G M : Type 0} (c : Secp K G M) where
  -- The quote is the amount and a fee, and the pending intent of the challenge has this fee.
  abbrev Quoted : WithdrawlIntent → ℕ × Text → At SpendIntentState w → Type 0
  Quoted intent (total, challenge) s' =
      (fee : ℕ) × (total ≡ add64 intent.amount_sat fee)
      × (lookup challenge s'.own.pending_intents ≡ some (intent, fee))

  quote_withdrawal-Quoted :
      (nonce : Bytes) (intent : WithdrawlIntent) (s : At SpendIntentState w) {q : ℕ × Text}
      → (quote_withdrawal sv c nonce intent s).0 ≡ ok q
      → Quoted intent q (quote_withdrawal sv c nonce intent s).1
  unfolding quote_withdrawal
  quote_withdrawal-Quoted nonce intent s {q} h =
      elim (Result-cases (sv.get_current_fee_per_vb intent.blocks_to_confirm s.node.outside).0) [
        | inr (e, p) ↦ absurd (ground arith)
        | inl (rate, p) ↦ elim (Result-cases (sv.fee_of rate 120)) [
          | inr (e, p1) ↦ absurd (ground arith)
          | inl (estimated_fee, p1) ↦ elim (Result-cases (sv.parse_address intent.address_to)) [
            | inr (e, p2) ↦ absurd (ground arith)
            | inl (address, p2) ↦
                elim (Result-cases
                  (sv.create_spend intent.amount_sat estimated_fee address true s.node.wallet).0) [
                    | inr (e, p3) ↦ absurd (ground arith)
                    | inl (spend, p3) ↦ elim (Result-cases (sv.fee_of rate (sv.vsize spend.0))) [
                      | inr (e, p4) ↦ absurd (ground arith)
                      | inl (size_fee, p4) ↦
                          let fee = (size_fee * 2) % u64_mod in
                          let key = c.hex_encode (c.sha256 nonce) in
                          (
                            fee,
                            ground arith,
                            ground
                                (arith, lookup-insert_self key (intent, fee) s.own.pending_intents),
                          )
                    ]
                  ]
          ]
        ]
      ]

  -- A proposal that succeeds is of an account that has the amount.
  abbrev pub Funded : WithdrawlIntent → At SpendIntentState w → Type 0
  Funded intent s =
      (account : Account) × ((sv.ask_chain (ChainMessage.get_account intent.public_key)
          s.node.outside).0
        ≡ ok (ChainResponse.get_account (some account)))
      × (intent.amount_sat ≤ account.balance)

  propose_withdrawal-Quoted :
      (nonce : Bytes) (intent : WithdrawlIntent) (s : At SpendIntentState w) {q : ℕ × Text}
      → (propose_withdrawal sv c nonce intent s).0 ≡ ok q
      → Funded intent s × Quoted intent q (propose_withdrawal sv c nonce intent s).1
  unfolding propose_withdrawal
  propose_withdrawal-Quoted nonce intent s {q} h =
      let m = call (sv.ask_chain (ChainMessage.get_account intent.public_key)) in
      elim (Result-cases (m s).0) [
        | inr (e, p) ↦ absurd (ground arith)
        | inl (ChainResponse.get_account (some account), p) ↦
            elim (Bool-cases (ltb account.balance intent.amount_sat)) [
              | inl poor ↦ absurd (ground arith)
              | inr rich ↦
                  let same : propose_withdrawal sv c nonce intent s
                      ≡ quote_withdrawal sv c nonce intent (m s).1 =
                    rw (p, rich) refl in
                  (
                    (account, p, ground arith),
                    rw same (
                        quote_withdrawal-Quoted nonce intent (m s).1 {q = q}
                          (sym (ap (λ r. r.0) same) ∙ h)),
                  )
            ]
        | inl (response, p) ↦ absurd (ground arith)
      ]

  -- Equal intents make equal requests.
  same_request :
      {intent found : WithdrawlIntent} {fee fee' : ℕ} (challenge signature : Text)
      (before after : w.Outside)
      → ◌≡◌ {A = WithdrawlIntent × ℕ} (intent, fee) (found, fee')
      → verify_signature c challenge signature found.public_key ≡ ok true
      → after
        ≡ (sv.send_self_request
            (SelfRequest.spend found.amount_sat fee' found.address_to found.public_key)
            false
            before).1
      → (verify_signature c challenge signature intent.public_key ≡ ok true)
        × (after
            ≡ (sv.send_self_request
                (SelfRequest.spend intent.amount_sat fee intent.address_to intent.public_key)
                false
                before).1)
  same_request {intent} {found} {fee} {fee'} challenge signature before after same valid sent =
      let same_intent : intent ≡ found = ap (λ p. p.0) same in
      let same_fee : fee ≡ fee' = ap (λ p. p.1) same in
      (rw same_intent valid, rw (same_intent, same_fee) sent)

  -- The node pays what it quoted: if a proposal gives a quote with a challenge, of which a confirmation
  -- then succeeds, the account had the amount, the signature is by the key of the intent, and the spend
  -- that the node asks for has the amount and the address of the intent and a fee that makes the quote
  -- with the amount, as u64.
  pub propose-confirm :
      (nonce : Bytes) (intent : WithdrawlIntent) (signature : Text) (s : At SpendIntentState w)
      {total : ℕ} {challenge : Text}
      → (propose_withdrawal sv c nonce intent s).0 ≡ ok (total, challenge)
      → let s' = (propose_withdrawal sv c nonce intent s).1 in
        (confirm_withdrawal sv c challenge signature s').0 ≡ ok tt
        → Funded intent s
          × (verify_signature c challenge signature intent.public_key ≡ ok true)
          × ((fee : ℕ) × (total ≡ add64 intent.amount_sat fee)
              × ((confirm_withdrawal sv c challenge signature s').1.node.outside
                  ≡ (sv.send_self_request
                      (SelfRequest.spend intent.amount_sat fee intent.address_to intent.public_key)
                      false
                      s'.node.outside).1))
  propose-confirm nonce intent signature s {total} {challenge} h k =
      let (funded, (fee, made, kept)) =
        propose_withdrawal-Quoted nonce intent s {q = (total, challenge)} h in
      let s' = (propose_withdrawal sv c nonce intent s).1 in
      let (found, fee', pending, valid, sent) =
        confirm_withdrawal-signed sv c challenge signature s' k in
      let same : ◌≡◌ {A = WithdrawlIntent × ℕ} (intent, fee) (found, fee') =
        ground (arith, sym kept ∙ pending) in
      let (valid', sent') =
        same_request challenge signature s'.node.outside
          (confirm_withdrawal sv c challenge signature s').1.node.outside same valid sent in
      (funded, valid', (fee, made, sent'))

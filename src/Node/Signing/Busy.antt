-- ===== src/Node/Signing/Busy.antt =====
-- crates/node/src/handlers/signing: what a node that is in a session does with a second spend.
use threshold.Prelude.{
  ◌≡◌, refl, ℕ, Bool, none, some, Bytes, Text, Eq, ok, err, NodeError, error, Option-cases,
  Bool-cases, Result-cases, inl, inr, length, ◌==◌, nat_eq,
}
use threshold.Types.Network.{World}
use threshold.Node.{Services, At}
use threshold.Node.Signing.{ActiveSigning, SigningState, Frost, start_signing_session}
use threshold.Node.Signing.Spending.{start_spend_request}

module _ {w : World} ⦃q : Eq w.Identifier⦄ (sv : Services w) (fr : Frost w) where
  -- A node in a session starts no other, and stays as it was.
  start_signing_session-busy :
      (message_hex : Text) (active : ActiveSigning w) (s : At (SigningState w) w)
      → s.own.active_signing ≡ some active
      → (e : NodeError) × (start_signing_session sv fr message_hex s ≡ (err e, s))
  unfolding start_signing_session
  start_signing_session-busy message_hex active s h =
      elim (Option-cases s.node.private_key_package) [
        | inl none_key ↦ (error "DKG not completed", rw none_key refl)
        | inr (key, has_key) ↦ elim (Option-cases s.node.pubkey_package) [
          | inl none_public ↦ (error "DKG not completed", rw (has_key, none_public) refl)
          | inr (public, has_public) ↦ elim (Option-cases (fr.decode_hex_trimmed message_hex)) [
            | inl unread ↦ (error "Invalid hex message", rw (has_key, has_public, unread) refl)
            | inr (message, read) ↦ elim (Bool-cases (length message == 32)) [
              | inl full ↦ (
                error "A signing session is already active",
                rw (has_key, has_public, read, full, h) refl,
              )
              | inr short ↦ (
                error "Message must be 32-byte (sighash)",
                rw (has_key, has_public, read, short) refl,
              )
            ]
          ]
        ]
      ]

  -- A spend that a node in a session is asked for, to an address that can be parsed, is refused with no
  -- sighash, and no session or pending spend is recorded for it; but the wallet stays as `create_spend`
  -- left it.
  pub start_spend_request-busy :
      (script_pubkey : w.Address → Bytes) (amount_sat fee : ℕ) (address user_pubkey : Text)
      (dry_run : Bool) (active : ActiveSigning w) (s : At (SigningState w) w) {addr : w.Address}
      → s.own.active_signing ≡ some active
      → sv.parse_address address ≡ ok addr
      → let (r, s') =
          start_spend_request sv fr script_pubkey amount_sat fee address user_pubkey dry_run s in
        (r ≡ ok none)
        × (s'.own ≡ s.own)
        × (s'.node.wallet ≡ (sv.create_spend amount_sat fee addr dry_run s.node.wallet).1)
  unfolding start_spend_request
  start_spend_request-busy script_pubkey amount_sat fee address user_pubkey dry_run active s {addr}
        h p =
      let (r, purse) = sv.create_spend amount_sat fee addr dry_run s.node.wallet in
      let s1 = record s { node = record s.node { wallet = purse } } in
      elim (Result-cases r) [
        | inr (e, refused) ↦ rw (p, refused) (refl, refl, refl)
        | inl (spend, made) ↦
            let (e, busy) = start_signing_session-busy (sv.hex_encode spend.1) active s1 h in
            rw (p, made, busy) (refl, refl, refl)
      ]

-- ===== src/Node/Signing/Nonces.antt =====
-- crates/node/src/handlers/signing/create_signature.rs: for how many packages a node signs with the nonces
-- of one session.
use threshold.Prelude.{
  ◌≡◌, refl, ◌∙◌, ap, arith, ℕ, Option, none, some, List, [], ◌∷◌, Bytes, Eq, Result, ok, err,
  error, length, ok_or, lift, pure, ◌>>=◌, ◌==◌, if◌then◌else◌, ==_refl, nat_eq,
}
use threshold.Prelude.Dict.{lookup, insert, length-insert_present}
use threshold.Types.Network.{World, DirectMessage}
use threshold.Node.{Services, At}
use threshold.Node.Signing.{
  ActiveSigning, SigningState, Frost, coordinated, send_packages, distribute_package,
  handle_commitments_response, handle_sign_package,
}

module _ {w : World} ⦃q : Eq w.Identifier⦄ (sv : Services w) (fr : Frost w) where
  sign_package-ends :
      (peer : w.PeerId) (sign_id : ℕ) (bytes : Bytes) (s : At (SigningState w) w)
      → (handle_sign_package sv fr peer sign_id bytes s).0 ≡ ok tt
      → (handle_sign_package sv fr peer sign_id bytes s).1.own.active_signing ≡ none
  unfolding handle_sign_package
  sign_package-ends peer sign_id bytes s h = ground arith

  no_session :
      (peer : w.PeerId) (sign_id : ℕ) (bytes : Bytes) (s : At (SigningState w) w)
      → s.own.active_signing ≡ none
      → handle_sign_package sv fr peer sign_id bytes s ≡ (err (error "No active session"), s)
  unfolding handle_sign_package
  no_session peer sign_id bytes s h = rw h refl

  -- A participant signs at most one package with the nonces of a session: after it has signed, any further
  -- package, of any peer and under any id, is refused and changes nothing.
  pub handle_sign_package-once :
      (peer peer' : w.PeerId) (sign_id sign_id' : ℕ) (bytes bytes' : Bytes)
      (s : At (SigningState w) w)
      → (handle_sign_package sv fr peer sign_id bytes s).0 ≡ ok tt
      → let s' = (handle_sign_package sv fr peer sign_id bytes s).1 in
        handle_sign_package sv fr peer' sign_id' bytes' s' ≡ (err (error "No active session"), s')
  handle_sign_package-once peer peer' sign_id sign_id' bytes bytes' s h =
      no_session peer' sign_id' bytes' (handle_sign_package sv fr peer sign_id bytes s).1
        (sign_package-ends peer sign_id bytes s h)

  abbrev with_outside : At (SigningState w) w → w.Outside → At (SigningState w) w
  with_outside s o = record s { node = record s.node { outside = o } }

  send_packages-outside :
      (peers : List w.PeerId) (sign_id : ℕ) (bytes : Bytes) (s : At (SigningState w) w)
      → (o : w.Outside) × (send_packages sv fr peers sign_id bytes s ≡ (ok tt, with_outside s o))
  unfolding send_packages
  send_packages-outside [] sign_id bytes s = (s.node.outside, refl)
  send_packages-outside (peer ∷ peers) sign_id bytes s =
      let sent =
        (sv.send_private_message peer (DirectMessage.sign_package sign_id bytes)
          s.node.outside).1 in
      send_packages-outside peers sign_id bytes (with_outside s sent)

  -- The session after the package of its commitments is signed.
  abbrev pub signed_session : w.PeerId → ActiveSigning w → w.SignatureShare → ActiveSigning w
  signed_session peer active share = record active {
    signing_package = some (fr.new_package active.commitments active.message);
    signature_shares = insert (sv.peer_identifier peer) share active.signature_shares;
  }

  distribute_package_lem :
      (active : ActiveSigning w) (sign_id : ℕ) (s : At (SigningState w) w) {pkg : Bytes}
      {key : w.KeyPackage} {share : w.SignatureShare}
      → fr.serialize_package (fr.new_package active.commitments active.message) ≡ some pkg
      → s.node.private_key_package ≡ some key
      → fr.sign (fr.new_package active.commitments active.message) active.nonces key ≡ ok share
      → ((distribute_package sv fr active sign_id s).0 ≡ ok tt)
        × ((distribute_package sv fr active sign_id s).1.own.active_signing
            ≡ some (signed_session s.node.peer_id active share))
  unfolding distribute_package
  distribute_package_lem active sign_id s {pkg} {key} {share} p k r =
      let packaged : ActiveSigning w = record active {
        signing_package = some (fr.new_package active.commitments active.message);
      } in
      let (o, sent) =
        send_packages-outside active.selected_peers sign_id pkg
          (record s { own = record s.own { active_signing = some packaged } }) in
      rw (p, sent, k, r) (refl, refl)

  -- A coordinator signs again with the nonces that it has used: when all commitments of a session are in
  -- and a peer that is among them sends another one, the coordinator takes it in place of the first,
  -- builds a package of the new commitments, and signs that with the nonces of the session, if the
  -- package can be serialized and frost signs it.
  pub handle_commitments_response-signs_again :
      (peer : w.PeerId) (sign_id : ℕ) (bytes : Bytes) (active : ActiveSigning w)
      (s : At (SigningState w) w) {first second : w.SigningCommitments} {pkg : Bytes}
      {key : w.KeyPackage} {share : w.SignatureShare}
      → s.own.active_signing ≡ some active
      → coordinated sign_id (some active) ≡ ok active
      → s.node.min_signers ≡ some (length active.commitments)
      → lookup (sv.peer_identifier peer) active.commitments ≡ some first
      → fr.deserialize_commitments bytes ≡ some second
      → s.node.private_key_package ≡ some key
      → let all = insert (sv.peer_identifier peer) second active.commitments in
        let package_of_all = fr.new_package all active.message in
        fr.serialize_package package_of_all ≡ some pkg
        → fr.sign package_of_all active.nonces key ≡ ok share
        → ((handle_commitments_response sv fr peer sign_id bytes s).0 ≡ ok tt)
          × ((handle_commitments_response sv fr peer sign_id bytes s).1.own.active_signing
              ≡ some (signed_session s.node.peer_id (record active { commitments = all }) share))
  unfolding handle_commitments_response
  handle_commitments_response-signs_again peer sign_id bytes active s {first} {second} {pkg} {key}
        {share} a c m l d k p r =
      let counted : ActiveSigning w = record active {
        commitments = insert (sv.peer_identifier peer) second active.commitments;
      } in
      let same : length counted.commitments ≡ length active.commitments =
        length-insert_present (sv.peer_identifier peer) second active.commitments {old = first} l in
      let s' = record s { own = record s.own { active_signing = some counted } } in
      let (done, session) =
        distribute_package_lem counted sign_id s' {pkg = pkg} {key = key} {share = share} p k r in
      let rest : Option ℕ → Result (Unit {0}) × At (SigningState w) w = λ min.
        (lift (ok_or min "Min signers not set") >>= λ min_signers.
        if length counted.commitments == min_signers
        then distribute_package sv fr counted sign_id
        else pure tt)
          s' in
      let reached : handle_commitments_response sv fr peer sign_id bytes s
          ≡ rest s.node.min_signers =
        rw (a, c, d) refl in
      let complete : rest (some (length active.commitments))
          ≡ distribute_package sv fr counted sign_id s' =
        rw (same, ==_refl (length active.commitments)) refl in
      let whole = reached ∙ ap rest m ∙ complete in
      (ap (λ o. o.0) whole ∙ done, ap (λ o. o.1.own.active_signing) whole ∙ session)

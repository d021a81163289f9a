-- ===== src/Node/Dkg/Secrets.antt =====
-- crates/node/src/handlers/dkg/key_creation.rs: which secrets a node holds in which part of a run.
use threshold.Prelude.{
  ◌≡◌, refl, arith, Bool, true, false, not, ◌&&◌, ◌||◌, Option, none, some, List, [], ◌∷◌, Bytes,
  Eq, Result, ok, err, Action, lift, ◌>>=◌, ◌>>◌, Result-cases, Option-cases, Bool-cases, inl, inr,
  ok_or,
}
use threshold.Prelude.Dict.{Dict, lookup, insert}
use threshold.Prelude.Moves.{Moves, Preorder, Moves-bind, Moves-lift, Moves-pure}
use threshold.Types.Network.{World, DirectMessage}
use threshold.Types.Broadcast.{BroadcastMessage}
use threshold.Node.{Services, At, call}
use threshold.Node.Signing.{is_some}
use threshold.Node.Dkg.{
  DkgState, DkgCrates, DkgAction, send_round2, enter_round2, enter_with, try_enter_round2,
  publish_round1, run_part1, start_dkg, handle_dkg_start, start_late, handle_round1_payload,
  finish_dkg, finish_with, finish_secret, reset_dkg_state, handle_round2_payload, has_keys, entered,
}

-- The first round's secret is held in a run only, and never with the second round's; the second round's is
-- held in a run or with the keys, of which a node has both or none.
abbrev pub fits : (r1 r2 started private public : Bool) → Bool
fits r1 r2 started private public =
    (not r1 || (started && not r2))
    && (not r2 || started || private)
    && ((private && public) || (not private && not public))

abbrev pub DkgIsValid : {w : World} → At (DkgState w) w → Type 0
DkgIsValid s =
    fits (is_some s.own.r1_secret_package) (is_some s.own.r2_secret_package) s.own.dkg_started
      (is_some s.node.private_key_package) (is_some s.node.pubkey_package)
    ≡ true

record Keeps {w : World} (s t : At (DkgState w) w) : Type 0 where
  pub kept : DkgIsValid s → DkgIsValid t

module _ {w : World} where
  Keeps-preorder : Preorder (Keeps {w = w})
  Keeps-preorder = record {
    stay = λ s. record { kept = λ h. h };
    chain = λ s t u p q. record { kept = λ h. q.kept (p.kept h) };
  }

  call-Keeps : {A : Type 0} (m : Action w.Outside A) → Moves (Keeps {w = w}) (call m)
  call-Keeps m = record { at = λ s. record { kept = λ h. h } }

module _ {w : World} ⦃q : Eq w.Identifier⦄ ⦃qp : Eq w.PeerId⦄ (sv : Services w)
    (dc : DkgCrates w) where
  send_round2-Keeps :
      (peers : List w.PeerId) (packages : Dict w.Identifier w.Round2Package)
      → Moves Keeps (send_round2 sv dc peers packages)
  unfolding send_round2
  send_round2-Keeps [] packages = Moves-pure Keeps-preorder tt
  send_round2-Keeps (peer ∷ peers) packages =
      let found = ok_or (lookup (sv.peer_identifier peer) packages) "Round2 package not found" in
      let send = λ (p : w.Round2Package).
        call {H = DkgState w} (sv.send_private_message peer (DirectMessage.round2_package p)) in
      Moves-bind Keeps-preorder (lift found) (λ p. send p >> send_round2 sv dc peers packages)
        (Moves-lift Keeps-preorder found)
        (λ p.
          Moves-bind Keeps-preorder (send p) (λ _. send_round2 sv dc peers packages)
            (call-Keeps (sv.send_private_message peer (DirectMessage.round2_package p)))
            (λ _. send_round2-Keeps peers packages))

  enter_round2-valid :
      (secret : w.Round1Secret) (s : At (DkgState w) w)
      → s.own.r1_secret_package ≡ some secret
      → DkgIsValid s
      → DkgIsValid (enter_round2 sv dc secret s).1
  unfolding enter_round2
  enter_round2-valid secret s r1 v =
      elim (Result-cases (dc.part2 secret s.own.round1_peer_packages)) [
        | inr (e, failed) ↦ rw failed v
        | inl (made, done) ↦
            let s' = record s {
              own = record s.own { r1_secret_package = none; r2_secret_package = some made.0 };
            } in
            rw done (((send_round2-Keeps s.own.dkg_listeners made.1).at s').kept (ground arith))
      ]

  enter_with-valid :
      (o : Option w.Round1Secret) (s : At (DkgState w) w)
      → s.own.r1_secret_package ≡ o
      → DkgIsValid s
      → DkgIsValid (enter_with sv dc o s).1
  enter_with-valid none s r1 v = v
  enter_with-valid (some secret) s r1 v = ground (arith, enter_round2-valid secret s r1 v)

  try_enter_round2-valid :
      (s : At (DkgState w) w) → DkgIsValid s → DkgIsValid (try_enter_round2 sv dc s).1
  unfolding try_enter_round2
  try_enter_round2-valid s v = enter_with-valid s.own.r1_secret_package s refl v

  abbrev enter : DkgAction w (Unit {0})
  enter s = entered sv dc (try_enter_round2 sv dc s)

  enter-Keeps : Moves Keeps enter
  enter-Keeps = record { at = λ s. record { kept = try_enter_round2-valid s } }

  -- The first round's secret is taken in a run, by a node that has neither the second's nor one key only.
  publish_round1-valid :
      (secret : w.Round1Secret) (made : w.Round1Package) (s : At (DkgState w) w)
      → s.own.dkg_started ≡ true
      → is_some s.own.r2_secret_package ≡ false
      → DkgIsValid s
      → DkgIsValid (publish_round1 sv dc secret made s).1
  unfolding publish_round1
  publish_round1-valid secret made s running no_r2 v =
      let s' = record s { own = record s.own { r1_secret_package = some secret } } in
      let first = sv.send_broadcast (BroadcastMessage.dkg (dc.start_dkg_message s.node.peer_id)) in
      let second = λ (b : Bytes). sv.send_broadcast (BroadcastMessage.dkg (dc.round1_message b)) in
      let serialized = dc.serialize_round1 made in
      let publish = λ (b : Bytes). call {H = DkgState w} (second b) >> enter in
      let published =
        Moves-bind Keeps-preorder (call first) (λ _. lift serialized >>= publish) (call-Keeps first)
          (λ _.
            Moves-bind Keeps-preorder (lift serialized) publish
              (Moves-lift Keeps-preorder serialized)
              (λ b.
                Moves-bind Keeps-preorder (call (second b)) (λ _. enter) (call-Keeps (second b))
                  (λ _. enter-Keeps))) in
      (published.at s').kept (ground arith)

  run_part1-valid :
      (s : At (DkgState w) w)
      → s.own.dkg_started ≡ true
      → is_some s.own.r2_secret_package ≡ false
      → DkgIsValid s
      → DkgIsValid (run_part1 sv dc s).1
  unfolding run_part1
  run_part1-valid s running no_r2 v = elim (Option-cases s.node.max_signers) [
    | inl unset ↦ ground arith
    | inr (max, is_max) ↦ elim (Option-cases s.node.min_signers) [
      | inl unset ↦ ground arith
      | inr (min, is_min) ↦
          let part1 = dc.part1 (sv.peer_identifier s.node.peer_id) max min in
          let s' = (call {H = DkgState w} part1 s).1 in
          elim (Result-cases (part1 s.node.outside).0) [
            | inr (e, failed) ↦ ground arith
            | inl (made, done) ↦
                ground (arith, publish_round1-valid made.0 made.1 s' running no_r2 v)
          ]
    ]
  ]

  start_dkg-valid :
      (s : At (DkgState w) w)
      → has_keys s.node ≡ false
      → DkgIsValid s
      → DkgIsValid (start_dkg sv dc s).1
  unfolding start_dkg
  start_dkg-valid s no_keys v =
      let s' = record s { own = record s.own { dkg_started = true } } in
      elim (Bool-cases s.own.dkg_started) [
        | inl running ↦ ground arith
        | inr idle ↦ ground (arith, run_part1-valid s' refl (ground arith) (ground arith))
      ]

  pub handle_dkg_start-valid :
      (s : At (DkgState w) w) → DkgIsValid s → DkgIsValid (handle_dkg_start sv dc s).1
  unfolding handle_dkg_start
  handle_dkg_start-valid s v = ground (arith, start_dkg-valid s)

  start_late-valid : (s : At (DkgState w) w) → DkgIsValid s → DkgIsValid (start_late sv dc s).1
  start_late-valid s v = ground (arith, start_dkg-valid s)

  pub handle_round1_payload-valid :
      (sender : w.PeerId) (package_data : Bytes) (s : At (DkgState w) w)
      → DkgIsValid s
      → DkgIsValid (handle_round1_payload sv dc sender package_data s).1
  unfolding handle_round1_payload
  handle_round1_payload-valid sender package_data s v =
      let late = start_late sv dc >> try_enter_round2 sv dc in
      let late-Keeps =
        Moves-bind Keeps-preorder (start_late sv dc) (λ _. try_enter_round2 sv dc)
          (record { at = λ t. record { kept = start_late-valid t } })
          (λ _. record { at = λ t. record { kept = try_enter_round2-valid t } }) in
      elim (Result-cases (dc.deserialize_round1 package_data)) [
        | inr (e, unread) ↦ ground arith
        | inl (received, read) ↦
            let s' = record s {
              own = record s.own {
                round1_peer_packages =
                    insert (sv.peer_identifier sender) received s.own.round1_peer_packages;
              };
            } in
            ground (arith, (late-Keeps.at s').kept v)
      ]

  finish_with-valid :
      (r : Result (w.KeyPackage × w.PublicKeyPackage)) (s : At (DkgState w) w)
      → is_some s.own.r2_secret_package ≡ true
      → DkgIsValid s
      → DkgIsValid (finish_with sv dc r s).1
  unfolding finish_dkg reset_dkg_state
  finish_with-valid (ok keys) s r2 v = ground arith
  finish_with-valid (err e) s r2 v = ground arith

  finish_secret-valid :
      (o : Option w.Round2Secret) (s : At (DkgState w) w)
      → s.own.r2_secret_package ≡ o
      → DkgIsValid s
      → DkgIsValid (finish_secret sv dc o s).1
  finish_secret-valid none s r2 v = v
  finish_secret-valid (some secret) s r2 v = ground (
    arith,
    finish_with-valid (dc.part3 secret s.own.round1_peer_packages s.own.round2_peer_packages) s
        (rw r2 refl) v,
  )

  pub handle_round2_payload-valid :
      (sender : w.PeerId) (received : w.Round2Package) (s : At (DkgState w) w)
      → DkgIsValid s
      → DkgIsValid (handle_round2_payload sv dc sender received s).1
  unfolding handle_round2_payload
  handle_round2_payload-valid sender received s v =
      let sent = (call {H = DkgState w} (sv.send_private_message sender DirectMessage.pong) s).1 in
      let s' = record sent {
        own = record s.own {
          round2_peer_packages =
              insert (sv.peer_identifier sender) received s.own.round2_peer_packages;
        };
      } in
      ground (arith, finish_secret-valid s.own.r2_secret_package s' refl v)

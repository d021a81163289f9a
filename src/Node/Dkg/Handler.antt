-- ===== src/Node/Dkg/Handler.antt =====
-- crates/node/src/handlers/dkg/handler.rs: which events the key generation hears, and that its secrets fit.
use threshold.Prelude.{Option, none, some, Eq, Result, ok, err, pure, modify, ◌>>◌, set_insert}
use threshold.Types.Network.{World, Broadcast, DirectMessage, NetworkEvent}
use threshold.Types.Broadcast.{BroadcastMessage, decode_broadcast}
use threshold.Node.{Services, At, on_own}
use threshold.Node.Dkg.{
  DkgState, DkgInner, DkgCrates, DkgAction, handle_dkg_start, handle_round1_payload,
  handle_round2_payload,
}
use threshold.Node.Dkg.Secrets.{
  DkgIsValid, handle_dkg_start-valid, handle_round1_payload-valid, handle_round2_payload-valid,
}

module _ {w : World} ⦃q : Eq w.Identifier⦄ ⦃qp : Eq w.PeerId⦄ (sv : Services w)
    (dc : DkgCrates w) where
  abbrev pub handle_inner : w.PeerId → DkgInner → DkgAction w (Unit {0})
  handle_inner source_peer DkgInner.start_run = handle_dkg_start sv dc
  handle_inner source_peer (DkgInner.round1_package package_data) =
      handle_round1_payload sv dc source_peer package_data
  handle_inner source_peer DkgInner.other = pure tt

  -- A message that cannot be decoded, or has no source, is ignored.
  abbrev pub handle_gossip : Option w.PeerId → Result (Broadcast w) → DkgAction w (Unit {0})
  handle_gossip (some source_peer) (ok (BroadcastMessage.dkg gossip_msg)) =
      handle_inner source_peer (dc.read_gossip gossip_msg)
  handle_gossip _ _ = pure tt

  unfoldable pub handle : NetworkEvent w → DkgAction w (Unit {0})
  unfolding handle_dkg_start handle_round1_payload handle_round2_payload
  handle (NetworkEvent.subscribed peer_id topic) = do
    on_own (
        modify (λ own. record own {
          dkg_listeners = set_insert peer_id own.dkg_listeners;
          round1_listeners = set_insert peer_id own.round1_listeners;
        }))
    handle_dkg_start sv dc
  handle (NetworkEvent.gossipsub_message message) =
      handle_gossip message.source (decode_broadcast sv.prost message.payload)
  handle (NetworkEvent.message_event peer (DirectMessage.round2_package received)) =
      handle_round2_payload sv dc peer received
  handle _ = pure tt

  handle_inner-valid :
      (peer : w.PeerId) (inner : DkgInner) (s : At (DkgState w) w)
      → DkgIsValid s
      → DkgIsValid (handle_inner peer inner s).1
  handle_inner-valid peer DkgInner.start_run s v = handle_dkg_start-valid sv dc s v
  handle_inner-valid peer (DkgInner.round1_package package_data) s v =
      handle_round1_payload-valid sv dc peer package_data s v
  handle_inner-valid peer DkgInner.other s v = v

  handle_gossip-valid :
      (source : Option w.PeerId) (m : Result (Broadcast w)) (s : At (DkgState w) w)
      → DkgIsValid s
      → DkgIsValid (handle_gossip source m s).1
  handle_gossip-valid (some peer) (ok (BroadcastMessage.dkg gossip_msg)) s v =
      handle_inner-valid peer (dc.read_gossip gossip_msg) s v
  handle_gossip-valid (some peer) (ok m) s v = v
  handle_gossip-valid (some peer) (err e) s v = v
  handle_gossip-valid none m s v = v

  -- Whatever event a node handles, and whether that succeeds or fails, it holds the secret of the first
  -- round of the key generation only in a run and never beside that of the second, which it holds only
  -- in a run or when it has the keys, of which it has both or none, if all this was so before.
  pub handle-DkgIsValid :
      (event : NetworkEvent w) (s : At (DkgState w) w)
      → DkgIsValid s
      → DkgIsValid (handle event s).1
  unfolding handle
  handle-DkgIsValid (NetworkEvent.subscribed peer_id topic) s v =
      handle_dkg_start-valid sv dc
        (record s {
          own = record s.own {
            dkg_listeners = set_insert peer_id s.own.dkg_listeners;
            round1_listeners = set_insert peer_id s.own.round1_listeners;
          };
        })
        v
  handle-DkgIsValid (NetworkEvent.gossipsub_message message) s v =
      handle_gossip-valid message.source (decode_broadcast sv.prost message.payload) s v
  handle-DkgIsValid (NetworkEvent.message_event peer (DirectMessage.round2_package received)) s v =
      handle_round2_payload-valid sv dc peer received s v
  handle-DkgIsValid (NetworkEvent.message_event peer _) s v = v
  handle-DkgIsValid _ s v = v

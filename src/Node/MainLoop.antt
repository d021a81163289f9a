-- ===== src/Node/MainLoop.antt =====
-- crates/node/src/main_loop.rs: the events of a node, and the handlers that each goes through in turn.
-- `H` is the type of the handlers' states and `run` what a handler does with an event.
pub mod Handlers
use threshold.Prelude.{
  Option, none, some, List, [], ◌∷◌, ◌==◌, Eq, Result, ok, err, NodeError, Action, pure, modify,
  set_insert, ◌>>=◌,
}
use threshold.Types.Network.{World, NetworkEvent}
use threshold.Node.{NodeState, Services, At, logged}

-- A node with its handlers.
pub record Running (H : Type 0) (w : World) : Type 0 where
  pub handlers : List H
  pub node : NodeState w

-- One handler's result, and what the others give if it succeeds.
abbrev pub after_handler :
    {H : Type 0} {w : World}
    → Result (Unit {0})
    → At H w
    → Result (List H) × NodeState w
    → Result (List H) × NodeState w
after_handler (err e) s rest = (err e, s.node)
after_handler (ok u) s (ok hs, n) = (ok (s.own ∷ hs), n)
after_handler (ok u) s (err e, n) = (err e, n)

module _ {w : World} ⦃q : Eq w.PeerId⦄ (sv : Services w) where
  unfoldable pub insert_peers : List (w.PeerId × w.Multiaddr) → NodeState w → NodeState w
  insert_peers [] n = n
  insert_peers ((peer_id, addr) ∷ list) n =
      insert_peers list (record n { peers = set_insert peer_id n.peers })

  -- What the node itself does with an event, after its handlers. A failure to send is only logged.
  unfoldable pub own_part : NetworkEvent w → NodeState w → NodeState w
  unfolding insert_peers
  own_part (NetworkEvent.peers_connected list) n = insert_peers list n
  own_part (NetworkEvent.send_broadcast message) n = record n {
    outside = (sv.send_broadcast message n.outside).1;
  }
  own_part _ n = n

  module _ {H : Type 0} (run : NetworkEvent w → Action (At H w) (Unit {0})) where
    -- The loop over the handlers that were taken out: the first error ends it.
    unfoldable pub handle_all : NetworkEvent w → List H → Action (NodeState w) (List H)
    handle_all event [] n = (ok [], n)
    handle_all event (h ∷ hs) n =
        let (r, s) = run event (record { own = h; node = n }) in
        let rest = handle_all event hs s.node in after_handler r s rest

    abbrev pub put_back :
        NetworkEvent w → Result (List H) × NodeState w → Result (Unit {0}) × Running H w
    put_back event (ok hs, n) = (ok tt, record { handlers = hs; node = own_part event n })
    -- The handlers were taken out of the node and are dropped.
    put_back event (err e, n) = (err e, record { handlers = []; node = n })

    unfoldable pub handle_message : NetworkEvent w → Action (Running H w) (Unit {0})
    unfolding handle_all own_part
    handle_message event s = put_back event (handle_all event s.handlers s.node)

    -- `start`: an error of `poll` is only logged.
    unfoldable pub start : List (NetworkEvent w) → Running H w → Running H w
    unfolding handle_message
    start [] s = s
    start (event ∷ events) s = start events (handle_message event s).1

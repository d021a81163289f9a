-- ===== src/Node/Handlers.antt =====
-- crates/node/src/lib.rs, `new_from_config`, and the handlers of a node together.
use threshold.Prelude.{
  ◌≡◌, refl, ℕ, false, Option, none, some, List, [], ◌∷◌, Bytes, Text, Eq, Memᴰ, Result, ok, err,
  NodeError, Action, contains, list_eq, nat_eq, set_insert, if◌then◌else◌,
}
use threshold.Abci.ChainState.{DepositIntent}
use threshold.Abci.Messages.{ChainMessage, ChainResponse}
use threshold.Types.Network.{World, NetworkEvent, Message}
use threshold.Types.Broadcast.{decode_broadcast}
use threshold.Node.{NodeState, Services, At}
use threshold.Node.MainLoop.{Running, start, handle_message}
use threshold.Node.MainLoop.Handlers.{handle_message-disabled}
use threshold.Node.Dkg
use threshold.Node.Dkg.{DkgState, DkgCrates}
use threshold.Node.Signing.{SigningState, Frost}
use threshold.Node.Signing
use threshold.Node.ConsensusHandler
use threshold.Node.Deposit
use threshold.Node.Deposit.{DepositIntentState, DepositCrates}
use threshold.Node.Withdrawal
use threshold.Node.Withdrawal.{SpendIntentState, Secp}
use threshold.Node.Balance

-- `Box<dyn Handler>`
pub data AnyHandler (w : World) : Type 0 where
  dkg : DkgState w → AnyHandler w
  signing : SigningState w → AnyHandler w
  consensus : AnyHandler w
  deposit : DepositIntentState → AnyHandler w
  withdrawl : SpendIntentState → AnyHandler w
  balance : AnyHandler w

-- What the handlers call of other crates, and what they draw: a nonce, a tracking id and the time.
pub record Crates (w : World) : Type 1 where
  pub Key : Type 0
  pub SignatureDer : Type 0
  pub Digest : Type 0
  pub secp : Secp Key SignatureDer Digest
  pub frost : Frost w
  pub dkg_crates : DkgCrates w
  pub deposit_crates : DepositCrates w
  pub script_pubkey : w.Address → Bytes
  pub nonce : Bytes
  pub tracking_id : Text
  pub now : ℕ

-- A handler's result, as one of all handlers.
abbrev pub as_handler :
    {H : Type 0} {w : World}
    → (H → AnyHandler w)
    → Result (Unit {0}) × At H w
    → Result (Unit {0}) × At (AnyHandler w) w
as_handler f (r, s) = (r, record { own = f s.own; node = s.node })

module _ {w : World} ⦃q : Eq w.Identifier⦄ ⦃qp : Eq w.PeerId⦄ (sv : Services w)
    (cr : Crates w) where
  unfoldable pub run_handler :
      NetworkEvent w → AnyHandler w → NodeState w → Result (Unit {0}) × At (AnyHandler w) w
  unfolding Dkg.Handler.handle Signing.Spending.handle ConsensusHandler.handle Deposit.handle
      Withdrawal.handle Balance.handle
  run_handler event (AnyHandler.dkg h) n =
      as_handler AnyHandler.dkg
        (Dkg.Handler.handle sv cr.dkg_crates event (record { own = h; node = n }))
  run_handler event (AnyHandler.signing h) n =
      as_handler AnyHandler.signing
        (Signing.Spending.handle sv cr.frost cr.script_pubkey event (record { own = h; node = n }))
  run_handler event AnyHandler.consensus n =
      as_handler (λ u. AnyHandler.consensus)
        (ConsensusHandler.handle sv event (record { own = tt; node = n }))
  run_handler event (AnyHandler.deposit h) n = as_handler AnyHandler.deposit (
      Deposit.handle sv cr.deposit_crates cr.tracking_id cr.now event
        (record { own = h; node = n }))
  run_handler event (AnyHandler.withdrawl h) n =
      as_handler AnyHandler.withdrawl
        (Withdrawal.handle sv cr.secp cr.nonce event (record { own = h; node = n }))
  run_handler event AnyHandler.balance n =
      as_handler (λ u. AnyHandler.balance)
        (Balance.handle sv cr.now event (record { own = tt; node = n }))

  unfoldable pub run : NetworkEvent w → Action (At (AnyHandler w) w) (Unit {0})
  unfolding run_handler
  run event s = run_handler event s.own s.node

  -- The loop over the intents of the chain: the monitor is told of each new address.
  unfoldable pub watch_all : List DepositIntent → List Text → w.Outside → List Text × w.Outside
  watch_all [] addresses o = (addresses, o)
  watch_all (intent ∷ intents) addresses o =
      if contains addresses intent.deposit_address
      then watch_all intents addresses o
      else watch_all intents (set_insert intent.deposit_address addresses)
          (sv.notify_deposit intent o).1

  -- Only an answer with intents is used.
  abbrev pub stored_intents : Result (ChainResponse w.Json) → List DepositIntent
  stored_intents (ok (ChainResponse.get_all_deposit_intents intents)) = intents
  stored_intents _ = []

  -- The keys of the second argument are those that `load_dkg_keys` found, if any.
  unfoldable pub new_from_config :
      w.PeerId
      → Option (w.KeyPackage × w.PublicKeyPackage)
      → (min_signers max_signers : Option ℕ) → w.Purse
      → w.Outside
      → Running (AnyHandler w) w
  unfolding watch_all
  new_from_config peer_id keys min_signers max_signers wallet outside =
      let (response, asked) = sv.ask_chain ChainMessage.get_all_deposit_intents outside in
      let (addresses, told) = watch_all (stored_intents response) [] asked in
      record {
        handlers =
            AnyHandler.dkg (record {
              dkg_started = false;
              dkg_listeners = [];
              round1_listeners = [];
              round1_peer_packages = [];
              round2_peer_packages = [];
              r1_secret_package = none;
              r2_secret_package = none;
            })
            ∷ AnyHandler.signing (record { active_signing = none; pending_spends = [] })
            ∷ AnyHandler.consensus
            ∷ AnyHandler.deposit (record { deposit_addresses = addresses; processed_txids = [] })
            ∷ AnyHandler.withdrawl (record { pending_intents = [] })
            ∷ AnyHandler.balance
            ∷ [];
        node = record {
          peer_id = peer_id;
          peers = [];
          pubkey_package = elim keys [ none ↦ none | some pair ↦ some pair.1 ];
          private_key_package = elim keys [ none ↦ none | some pair ↦ some pair.0 ];
          min_signers = min_signers;
          max_signers = max_signers;
          wallet = wallet;
          outside = told;
        };
      }

  withdrawl-refuses :
      (m : Message w) (h : SpendIntentState) (n : NodeState w) {x : NodeError}
      → decode_broadcast sv.prost m.payload ≡ err x
      → (e : NodeError) × ((run
            (NetworkEvent.gossipsub_message m)
            (record { own = AnyHandler.withdrawl h; node = n })).0
          ≡ err e)
  unfolding run
  withdrawl-refuses m h n {x} unread = (x, rw unread refl)

  -- One gossip message that cannot be decoded, of whatever peer, is enough to leave a node that handles
  -- withdrawals without any handler, and without any after whatever messages follow.
  pub undecodable-disables :
      (m : Message w) (events : List (NetworkEvent w)) (h : SpendIntentState)
      (s : Running (AnyHandler w) w) {x : NodeError}
      → Memᴰ (AnyHandler.withdrawl h) s.handlers
      → decode_broadcast sv.prost m.payload ≡ err x
      → (start sv run events
          (handle_message sv run (NetworkEvent.gossipsub_message m) s).1).handlers
        ≡ []
  undecodable-disables m events h s mem unread =
      handle_message-disabled sv run (NetworkEvent.gossipsub_message m) events
        (AnyHandler.withdrawl h) s mem (λ n. withdrawl-refuses m h n unread)

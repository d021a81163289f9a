-- ===== src/Node/Dkg.antt =====
-- crates/node/src/handlers/dkg: `DkgState`. The nodes make the group's key in three parts, whose
-- cryptography is frost's: each broadcasts a package, sends a package to each other node when it has all
-- of the first round, and computes its keys when it has all of the second.
pub mod Secrets
pub mod Handler
use threshold.Prelude.{
  ℕ, ◌+◌, Bool, true, false, not, ◌&&◌, ◌||◌, Option, none, some, List, [], ◌∷◌, Bytes, Text, Eq,
  ◌==◌, nat_eq, Result, ok, err, error, NodeError, ok_or, Action, pure, lift, gets, modify, fail,
  ◌>>=◌, ◌>>◌, length, ltb, map, set_insert, sort_by_key, bytes_ord, if◌then◌else◌,
}
use threshold.Prelude.Dict.{Dict, lookup, insert}
use threshold.Protocol.Block.{ValidatorInfo, ChainConfig}
use threshold.Abci.Messages.{ChainMessage, ChainResponse}
use threshold.Types.Network.{World, Broadcast, DirectMessage, NetworkEvent}
use threshold.Types.Proto.{explained}
use threshold.Types.Broadcast.{BroadcastMessage, decode_broadcast}
use threshold.Node.{NodeState, Services, At, on_own, on_node, call}
use threshold.Node.Signing.{is_some}

pub record DkgState (w : World) : Type 0 where
  pub dkg_started : Bool
  pub dkg_listeners : List w.PeerId
  pub round1_listeners : List w.PeerId
  pub round1_peer_packages : Dict w.Identifier w.Round1Package
  pub round2_peer_packages : Dict w.Identifier w.Round2Package
  pub r1_secret_package : Option w.Round1Secret
  pub r2_secret_package : Option w.Round2Secret

-- What a gossip message of the key generation says, of those that are read.
pub data DkgInner : Type 0 where
  start_run : DkgInner
  round1_package : (package_data : Bytes) → DkgInner
  other : DkgInner

-- frost's three parts, prost's messages, and the file of the keys. A panic is an error.
pub record DkgCrates (w : World) : Type 0 where
  -- `part1(…).expect("Failed to generate round1 package")`
  pub part1 :
      w.Identifier
      → (max_signers min_signers : ℕ) → Action w.Outside (w.Round1Secret × w.Round1Package)
  pub serialize_round1 : w.Round1Package → Result Bytes
  pub deserialize_round1 : Bytes → Result w.Round1Package
  pub part2 :
      w.Round1Secret
      → Dict w.Identifier w.Round1Package
      → Result (w.Round2Secret × Dict w.Identifier w.Round2Package)
  pub part3 :
      w.Round2Secret
      → Dict w.Identifier w.Round1Package
      → Dict w.Identifier w.Round2Package
      → Result (w.KeyPackage × w.PublicKeyPackage)
  pub save_dkg_keys : w.KeyPackage → w.PublicKeyPackage → Action w.Outside (Unit {0})
  pub start_dkg_message : w.PeerId → w.Gossip
  pub round1_message : (package_data : Bytes) → w.Gossip
  pub read_gossip : w.Gossip → DkgInner

abbrev pub DkgAction : World → Type 0 → Type 0
DkgAction w A = Action (At (DkgState w) w) A

abbrev pub has_keys : {w : World} → NodeState w → Bool
has_keys n = is_some n.private_key_package && is_some n.pubkey_package

abbrev pub expect_genesis : {J : Type 0} → ChainResponse J → Result (Unit {0})
expect_genesis (ChainResponse.create_genesis_block none) = ok tt
expect_genesis _ = err (error "Failed to create genesis block")

module _ {w : World} ⦃q : Eq w.Identifier⦄ ⦃qp : Eq w.PeerId⦄ (sv : Services w)
    (dc : DkgCrates w) where
  -- The packages of the second round, each to its peer; the first that is missing ends the loop.
  unfoldable pub send_round2 :
      List w.PeerId → Dict w.Identifier w.Round2Package → DkgAction w (Unit {0})
  send_round2 [] packages = pure tt
  send_round2 (peer ∷ peers) packages = do
    package_to_send ←
        lift (ok_or (lookup (sv.peer_identifier peer) packages) "Round2 package not found")
    call (sv.send_private_message peer (DirectMessage.round2_package package_to_send))
    send_round2 peers packages

  unfoldable pub enter_round2 : w.Round1Secret → DkgAction w (Unit {0})
  unfolding send_round2
  enter_round2 secret = do
    own ← gets (λ s. s.own)
    made ← lift (dc.part2 secret own.round1_peer_packages)
    on_own
        (modify (λ own. record own { r1_secret_package = none; r2_secret_package = some made.0 }))
    send_round2 own.dkg_listeners made.1

  abbrev pub enter_with : Option w.Round1Secret → DkgAction w (Unit {0})
  enter_with none = pure tt
  enter_with (some secret) = do
    s ← gets (λ s. s)
    max_signers ← lift (ok_or s.node.max_signers "Max signers not set")
    if length s.own.round1_peer_packages + 1 == max_signers then enter_round2 secret else pure tt

  unfoldable pub try_enter_round2 : DkgAction w (Unit {0})
  unfolding enter_round2
  try_enter_round2 = do secret ← gets (λ s. s.own.r1_secret_package); enter_with secret

  -- `Err(e) => Err(NodeError::Error(format!("Failed to enter round2: {e}")))`
  abbrev pub entered : Result (Unit {0}) × At (DkgState w) w → Result (Unit {0}) × At (DkgState w) w
  entered (r, s) = (explained "Failed to enter round2: " r, s)

  -- The part of `start_dkg` after the first part of the key generation.
  unfoldable pub publish_round1 : w.Round1Secret → w.Round1Package → DkgAction w (Unit {0})
  unfolding try_enter_round2
  publish_round1 secret made_package = do
    on_own (modify (λ own. record own { r1_secret_package = some secret }))
    peer_id ← gets (λ s. s.node.peer_id)
    call (sv.send_broadcast (BroadcastMessage.dkg (dc.start_dkg_message peer_id)))
    serialized_pkg ← lift (dc.serialize_round1 made_package)
    call (sv.send_broadcast (BroadcastMessage.dkg (dc.round1_message serialized_pkg)))
    (λ s. entered (try_enter_round2 s))

  -- The part of `start_dkg` after `dkg_started` is set.
  unfoldable pub run_part1 : DkgAction w (Unit {0})
  unfolding publish_round1
  run_part1 = do
    node ← gets (λ s. s.node)
    max_signers ← lift (ok_or node.max_signers "Max signers not set")
    min_signers ← lift (ok_or node.min_signers "Min signers not set")
    made ← call (dc.part1 (sv.peer_identifier node.peer_id) max_signers min_signers)
    publish_round1 made.0 made.1

  unfoldable pub start_dkg : DkgAction w (Unit {0})
  unfolding run_part1
  start_dkg = do
    started ← gets (λ s. s.own.dkg_started)
    if started
        then fail "DKG already started"
        else do on_own (modify (λ own. record own { dkg_started = true })); run_part1

  unfoldable pub handle_dkg_start : DkgAction w (Unit {0})
  unfolding start_dkg
  handle_dkg_start = do
    s ← gets (λ s. s)
    if s.own.dkg_started || has_keys s.node then pure tt else do
      max_signers ← lift (ok_or s.node.max_signers "Max signers not set")
      if ltb (length s.own.dkg_listeners + 1) max_signers
            || ltb (length s.own.round1_listeners + 1) max_signers
          then pure tt
          else start_dkg

  -- A node that has not noticed all peers starts with the first package that it receives.
  abbrev pub start_late : DkgAction w (Unit {0})
  start_late = do
    s ← gets (λ s. s)
    if not s.own.dkg_started
          && not (length s.own.round1_peer_packages == 0)
          && not (is_some s.node.private_key_package)
          && not (is_some s.node.pubkey_package)
        then start_dkg
        else pure tt

  unfoldable pub handle_round1_payload : w.PeerId → (package_data : Bytes) → DkgAction w (Unit {0})
  unfolding start_dkg try_enter_round2
  handle_round1_payload sender package_data = do
    received ← lift (dc.deserialize_round1 package_data)
    on_own (
        modify (λ own. record own {
          round1_peer_packages =
              insert (sv.peer_identifier sender) received own.round1_peer_packages;
        }))
    found ← gets (λ s. s.node.max_signers)
    max_signers ← lift (ok_or found "Max signers not set")
    start_late
    try_enter_round2

  -- The validators of the genesis block are the peers that a node knows, without itself.
  abbrev pub genesis_validators : List w.PeerId → List ValidatorInfo
  genesis_validators peers =
      sort_by_key (λ v. v.pub_key)
        (map (λ p. record { pub_key = sv.peer_bytes p; stake = 100 }) peers)

  unfoldable pub finish_dkg : w.KeyPackage → w.PublicKeyPackage → DkgAction w (Unit {0})
  finish_dkg private_key_package pubkey_package = do
    on_node (
        modify (λ n. record n {
          pubkey_package = some pubkey_package;
          private_key_package = some private_key_package;
        }))
    call (dc.save_dkg_keys private_key_package pubkey_package)
    node ← gets (λ s. s.node)
    min_signers ← lift (ok_or node.min_signers "Min signers not set")
    max_signers ← lift (ok_or node.max_signers "Max signers not set")
    let chain_config : ChainConfig = record {
      min_signers = min_signers;
      max_signers = max_signers;
      min_stake = 100;
      block_time_seconds = 10;
      max_block_size = 1000;
    }
    response ← call (
        sv.ask_chain (
          ChainMessage.create_genesis_block (genesis_validators node.peers) chain_config
            pubkey_package))
    lift (expect_genesis response)
    on_own (modify (λ own. record own { dkg_started = false }))

  unfoldable pub reset_dkg_state : DkgState w → DkgState w
  reset_dkg_state own = record own {
    dkg_started = false;
    r1_secret_package = none;
    r2_secret_package = none;
    round1_peer_packages = [];
    round2_peer_packages = [];
  }

  abbrev pub finish_with : Result (w.KeyPackage × w.PublicKeyPackage) → DkgAction w (Unit {0})
  finish_with (ok keys) = finish_dkg keys.0 keys.1
  finish_with (err e) = on_own (modify reset_dkg_state)

  abbrev pub finish_secret : Option w.Round2Secret → DkgAction w (Unit {0})
  finish_secret none = pure tt
  finish_secret (some secret) = do
    s ← gets (λ s. s)
    max_signers ← lift (ok_or s.node.max_signers "Max signers not set")
    if length s.own.round2_peer_packages + 1 == max_signers
        then finish_with (dc.part3 secret s.own.round1_peer_packages s.own.round2_peer_packages)
        else pure tt

  unfoldable pub handle_round2_payload : w.PeerId → w.Round2Package → DkgAction w (Unit {0})
  unfolding finish_dkg reset_dkg_state
  handle_round2_payload sender received = do
    call (sv.send_private_message sender DirectMessage.pong)
    on_own (
        modify (λ own. record own {
          round2_peer_packages =
              insert (sv.peer_identifier sender) received own.round2_peer_packages;
        }))
    found ← gets (λ s. s.node.max_signers)
    max_signers ← lift (ok_or found "Max signers not set")
    secret ← gets (λ s. s.own.r2_secret_package)
    finish_secret secret

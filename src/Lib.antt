-- ===== src/Lib.antt =====
-- A model of the threshold node: a bridge whose nodes agree, by a vote of the validators, on blocks of
-- deposits and withdrawals, run them against the accounts, and spend bitcoin with a threshold key.
--
-- The parts, and where they are modelled:
-- * Protocol (crates/protocol/src): `Transaction`, `Operation` and the two kinds of transactions in
--   Protocol/Transaction (transaction.rs), their encoding in Protocol/Decoding (transaction.rs),
--   blocks, genesis and their hashes in Protocol/Block (block.rs). What they use of sha2, bincode and serde_json is the record of Protocol/Codec.
-- * Abci (crates/abci/src): the accounts, intents and pending transactions in Abci/ChainState
--   (chain_state.rs), the machine that runs a transaction in Abci/Executor (executor.rs), the trait
--   `Db` in Abci/Db (db/mod.rs), its implementation `RocksDb` in Abci/RocksDb (db/rocksdb.rs), with
--   what readers see of it in Abci/RocksDb/Contents, the messages in Abci/Messages and the
--   chain with its handler in Abci/Interface (lib.rs, main_loop.rs). The runs of a chain, with restarts,
--   are in Abci/Interface/Pending; what they rely on is shown of `RocksDb`, over the crate rocksdb, in
--   Abci/RocksDb/Keeps. A block is executed transaction by transaction on a copy of the state,
--   which replaces the state when the database has taken it.
-- * Consensus (crates/consensus/src): the state and the choice of a leader in Consensus/State, the
--   messages in Consensus/Messages (lib.rs), the surroundings of a node in Consensus/Engine, rounds
--   and proposals in Consensus/Starting, votes in Consensus/Voting, and `handle_message` in
--   Consensus/Handler (consensus_interface.rs, and the timer of main_loop.rs). The chain is reached
--   through `Env.ask`, whose messages are those of Abci/Messages. Consensus/Once and Consensus/Heard run
--   a node over votes, and over votes and leader announcements.
-- * Types (crates/types/src): what nodes send each other, Types/Consensus (consensus.rs), its protobuf
--   form and that of intents, Types/Proto (consensus.rs, intents.rs), the tagged broadcast messages,
--   Types/Broadcast (broadcast.rs), and the events and requests of a node, Types/Network
--   (network/network_event.rs, intents.rs), where `World` names the types of other crates; the protobuf
--   form of direct messages is in Types/Direct (proto.rs).
-- * Wallet (crates/node/src/wallet): the coins and their selection in Wallet/Coins, `create_spend` and
--   `ingest_external_tx` in Wallet/Spend (taproot.rs). The crate bitcoin is the record `Bitcoin`.
-- * Node (crates/node/src): `NodeState` and what a node calls, the record `Services`, in Node (lib.rs);
--   the loop over the events in Node/MainLoop (main_loop.rs); the handlers in Node/Dkg, Node/Signing,
--   Node/ConsensusHandler, Node/Deposit, Node/Withdrawal and Node/Balance (handlers/dkg, signing,
--   consensus, deposit, withdrawl, balance), each an action on its own state beside the node's (`At`);
--   and all of them together, as `new_from_config` makes them, in Node/Handlers. An event goes through
--   the handlers in turn. A confirmed withdrawal sends the node a request to spend, which starts a
--   session of signatures, which ends in the ledger's debit, `handle_signed_withdrawal`.
-- * Oracle (crates/oracle/src): the client of Esplora's server in Oracle/Esplora (esplora.rs), over the
--   record `Client` of what the server answers, the turns of its polling loop in Oracle/Polling, and
--   the client as the oracle of the executor in Oracle/Credits. The chain's executor asks an oracle for a
--   verification (`validate_transaction`), the withdrawals for the fee, the wallet for the coins of an address.
-- Prelude holds the shared types and lemmas: results and actions that keep what was written before an
-- error, dictionaries, sorting, bytes, and relations that every step of an action keeps. Samples holds
-- small instances of the parameters for the examples, which stand in modules called Tests.
--
-- Conventions. An integer is a natural number; `u32` and `u64` sums wrap around as in a release build
-- (`add32`, `add64`), and `saturating_sub` is the subtraction that stops at 0. A `HashMap` is an
-- association list and a `HashSet` the list of its elements. A `&mut self` method is an action: it
-- returns its result and the new object, also when it fails. All loops are structural, but for the
-- search of confirmed transactions, which counts pages down on fuel: one more than the pages that are
-- left for an address is enough. The clock is an argument. Errors keep the texts of this repository;
-- where such a text quotes an error of std or of another crate, the quoted part is cut or is a
-- parameter.
--
-- A panic of the source is an error with the panic's text, where its condition is modelled. The messages
-- of the handlers reach the chain and the consensus through `Services`, not through their models.
--
-- Not modelled: logging, with messages for debugging off, and metrics, channels and the loops that poll
-- them, the crates rocksdb and libp2p, the cryptography of frost, the pauses between requests, start-up and
-- configuration, gRPC and the command line tools.
pub mod Abci
pub mod Consensus
pub mod Node
pub mod Oracle
pub mod Prelude
pub mod Protocol
pub mod Samples
pub mod Types
pub mod Wallet

-- ===== src/Lib.antt =====
-- Kalatori: a daemon that takes payments for orders on Substrate chains.
--
-- A shop places an order over HTTP (src/handlers/order.rs). The state handler (src/state.rs), one
-- task with a loop over requests, asks the signer (src/signer.rs) for an account that is derived
-- from the order, the database (src/database.rs) to store it, and the chain manager
-- (src/chain/mod.rs) to watch it. The manager sends the request to the tracker of the order's chain
-- (src/chain/tracker.rs), which looks at the watched accounts in every block, and reports an order
-- whose account holds enough. The state handler then has the database mark it as paid, and asks the
-- chain manager to reap the account.
--
-- The files, by the code that they model:
--   Prelude       shared names and lemmas; `HashMap` as an association list, `Result`, and `Exec`, a
--                 step over a state that may fail and keeps what was written before the failure
--   Definitions   src/definitions.rs: the data; an f64 is its bit pattern
--   Errors        src/error.rs: the enumerations of the errors; Causes is pretty_cause, the printed
--                 list of the sources of an error, and Numbering relates it to a plain listing
--   Hex           src/utils.rs, and BlockHash of src/chain/definitions.rs; Roundtrip
--   Seeds         src/arguments.rs: SeedEnvVars::parse, over the variables of the environment; Removal
--                 is about what is left of them, Origin about the seed
--   Start         src/main.rs: try_main and async_try_main, with Config of src/arguments.rs, the start of
--                 Database::init and of State::initialise; Restoring is about the stored orders,
--                 SeedErrors about a phrase that is not accepted
--   Service       src/chain/mod.rs: the methods of ChainManager over the manager and the trackers that
--                 run; Requests, Watching and Purchases follow an order from the state handler to its
--                 tracker and to its payout, Tracked and Restored the stored orders after a start
--   Shutdown      src/shutdown.rs, wait_with_notification of src/task_tracker.rs, the exit code of
--                 src/main.rs; Reasons has the phases of a shutdown as a step relation
--   Database      src/database.rs: create_order, read_order, mark_paid, mark_withdrawn, mark_stuck on
--                 the table of orders. Steps and Ledger relate them to an abstract ledger, a function
--                 from IDs to orders; Server is the task behind its channel, Books its abstract
--                 view, Instance the ID that it
--                 keeps; Final and Withdrawal are about the life of an order
--   Signer        src/signer.rs: the worker that holds the entropy of the seed; Keys
--   State         src/state.rs: StateData, the match on a request (handle), the loop, the orders that
--                 are watched again after a start, the shutdown. Handle is the public struct State;
--                 Invoices, Payments and Loop prove what the requests do
--   Chains        src/chain/definitions.rs: WatchAccount, Invoice, balance and check
--   Chains/Manager   src/chain/mod.rs: ignite, and the match on a request; Routing, Start
--   Chains/Tracker   src/chain/tracker.rs: the match on a request and the handling of a block;
--                 Connection is prepare_chain, and Assets is about the assets that it keeps; Accounts,
--                 Blocks, Reports, Watched and Connected prove what blocks and requests do;
--                 Cycle is the loop over the endpoints, Asked and Reported are about what it
--                 reports and pays out over all connections
--   Chains/Properties  src/chain/utils.rs: decimals, unit, base58prefix; Specs says when they succeed
--   Chains/Metadata  src/chain/utils.rs: what is read from the metadata of a chain; Keys are the keys
--                 of storage entries, Receipts is about the receiver of a transfer
--   Chains/Filling   src/chain/utils.rs: the types to fill, with Calls, the calls, and Transactions, the
--                 transaction of a batch; Names says what is filled in, Clearing what is not
--   Chains/Storage   src/chain/utils.rs: the storage queries; Located says where that for the number of a
--                 block looks, Account where that for a balance in an asset looks, and for what
--   Chains/Rpc    src/chain/rpc.rs: the requests to a node; Paging is about the scan of the keys,
--                 Blocks about hashes, Balances and Events are the reads of the storage, Transfers
--                 says which events are kept; Assets and AssetSet are assets_set_at_block, Shown and
--                 Evidence say what a node shows of an asset, Named, Kept and Currencies what is
--                 found
--   Chains/Payouts   src/chain/payout.rs: what a payout transfers; Transaction is the whole payout,
--                 Submission about what it submits; Calls makes its transaction of the calls of
--                 Chains/Filling, Extrinsic is about what the extrinsic names
--   Handlers      src/handlers/order.rs, src/handlers/health.rs: the requests and their responses;
--                 Requests and Validation are about them, Forced is the forced withdrawal
--   Fixtures      a storage, keys and a chain manager at which the theorems are applied
--
-- A function of the source has its name here; a method takes its module's name. A task is a record
-- of its state, a request to it a value of its enumeration, and the channel of the reply the result
-- of the step. Requests to one task are handled one after the other, as its loop does, so a run is a
-- list of requests. What follows in a task after its end is that it does not answer any more. A
-- tracker receives requests only on a connection; the field connected of Link says whether it gets
-- one, and restore stops at an order whose answer does not come. The events of Shutdown are those of
-- a release, in which a panic kills the process.
--
-- Parameters stand for what is not in the repository: the tables and the codec of the database
-- (Storage, with the laws IsStorage of a map and of an encoding), the files and the clock (Env,
-- Setup), the cryptography (Crypto), the arithmetic of f64 (FloatOps), the JSON values (Json), the
-- coder of hexadecimal texts (HexCoder), the parser of the metadata and of the data that it
-- describes (Parser, MetadataCodec), the connection to a node (WsClient), a step over its state, so
-- that a node may answer as it likes, the types to fill and the selectors of the storage (Filler,
-- Transactor, Signing, Chains.Storage.Storage), what the start asks of the system (Machine), and for
-- the tracker the answers to its reads (Node, Client, Probe). The state handler uses the chain
-- manager through the interface ChainHandle, which Service fills, and the reads of the storage their
-- queries through Queries. The loops are recursions on lists; that over the pages of keys is a
-- recursion on its bound MAX_KEY_PAGES. Unsigned integers are natural numbers; where the source can
-- wrap around, the modulus is written out.
--
-- Not modelled: subscribe_blocks and get_nonce of src/chain/rpc.rs; the spawning of tasks and the
-- routes of the server (tokio, axum); the texts of the command line and of the configuration, which
-- other crates read; the waiting of the signal listener, and logging.
pub mod Prelude
pub mod Definitions
pub mod Errors
pub mod Database
pub mod Hex
pub mod Signer
pub mod Seeds
pub mod Service
pub mod Shutdown
pub mod Start
pub mod State
pub mod Chains
pub mod Handlers
mod Fixtures

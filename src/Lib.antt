-- ===== src/Lib.antt =====
-- A verification library for zk-perp, an exchange for perpetual futures that proves its state
-- transitions. What is modelled is the engine (the data types, the order book with its matching
-- engine, the Merkle commitment, the global state with its transitions) and what stands around it:
-- the sequencer, the log of batches, the guest and the host of the prover, the verifier, the keys and
-- the price sources.
--
-- How the parts interact. The global state keeps accounts, positions, markets, oracle prices, one
-- order book for each market, the matching engine and the hypertree. A transition reads the root and
-- a Merkle proof, checks the account and its nonce, changes accounts, books and positions, and writes
-- the accounts it changed to the hypertree, whose root is the commitment that the proofs are about.
-- The sequencer checks the signature of a transaction, runs it on the state and keeps it pending; a
-- batch of pending transactions goes into the log with the roots before and after it, and the host
-- proves it by the guest. The verifier reads batches and proofs from the log, one after the other.
--
-- Which file models which part:
--   Types/* models crates/core/src/types/*.rs and crates/core/src/transactions/mod.rs: a record for
--   each struct, a data type for each enum, and a function for each method. A method that changes its
--   receiver returns it. Balance and Account both stand in account.rs.
--   Orderbook/Level and Orderbook/Book model `PriceLevel` and `OrderBook` of
--   crates/orderbook/src/book.rs. A BTreeMap is an association list in order of its keys.
--   Orderbook/Matching models crates/orderbook/src/matching.rs: `match_order` is `start`, the loop
--   `match_levels` over `round`, and `finish`; the inner loop is `match_level` over `fill_once`.
--   Below it, Greedy says what price-time priority means, OneLevel, Priority and Sweep prove the loops
--   against it, Enqueue, Places and Removal say where an order joins the queue of its side and what
--   a removal takes out of it, Refines puts them together, Valid and Uncrossed have the invariants of a book, and
--   Added, Cancel and PostOnly are about those orders.
--   Merkle/Tree and Merkle/Hypertree model crates/core/src/merkle/tree.rs and hypertree.rs. SHA-256
--   and the binary encodings come from other crates and are the record `External`, a parameter.
--   State/* models crates/state/src/lib.rs: Global has the state and the monad of a transition, which
--   carries the state also past an error and has a panic, Funds has deposits and withdrawals, Fills
--   and Orders have orders and their fills, Liquidation has liquidations and oracle updates, and
--   Process has the dispatch. State/Laws proves what the transitions guarantee.
--   Crypto/* models crates/core/src/crypto.rs: Hex its module `hex`, Keys the key pairs and signatures.
--   Oracle/* models crates/oracle/src/lib.rs: a file for each source and one for the aggregator; Median
--   is about the price that the aggregator picks.
--   Da/* models crates/da/src/lib.rs: Files has the records and the folder, Log has `AppendLog`;
--   Cache, Saving, Append, Proofs and Chain prove what reading and appending do, and Sample is a
--   small log.
--   Prover/* models crates/core/src/batch.rs (Batch), host/src/lib.rs (Host) and
--   methods/guest/src/main.rs (Guest): an abort of the guest is an error. Journal and Agreement relate
--   them with each other and with the engine.
--   Verifier/Node models verifier/src/lib.rs; Accepts, Progress, Pending, Ready and Liveness follow
--   one batch, one step, the loop, and the loop on a log of good proofs.
--   Sequencer/* models sequencer/src/lib.rs: Node has the state, Submit and Batches the calls; Chain,
--   Mempool, Authority and Pending prove what they do.
--   Prelude has what these share: tests, lists, maps, machine words and integers.
--   The Tests modules run the code and the theorems at concrete values.
--
-- Numbers are natural numbers; where the code can leave a machine word, the wrap of a release build
-- is written out. The order in which a hash map is walked, which Rust leaves open, is that of an
-- association list.
--
-- Fuel: the loop over the levels has one round more than the opposite side has levels, and the loop
-- over one level has two more than the level has orders. Each round empties a level or fills the
-- taker, so a run never needs more.
-- The loop of the verifier over the pending batches has one round for each batch of the log past the
-- last verified one, and one to stop.
--
-- Parameters: SHA-256, bincode and serde_json, the elliptic curve, the proving system, the clock and
-- what the operating system refuses are arguments, since their code stands elsewhere.
--
-- Not modelled: the Poseidon hasher, which stands on another crate and which nothing here calls; the
-- floating-point random walk of the simulated oracle, which is an argument; the HTTP handlers and the
-- command lines (sequencer/src/api.rs, verifier/src/main.rs), which are input and output. A call of
-- the sequencer runs alone: what other calls do between two of its locks is left out.
pub mod Prelude
pub mod Types
pub mod Orderbook
pub mod Merkle
pub mod State
pub mod Prover
pub mod Da
pub mod Verifier
pub mod Crypto
pub mod Oracle
pub mod Sequencer

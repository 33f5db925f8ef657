-- ===== src/Lib.antt =====
-- Tandem verifier: the deterministic core that reduces blocks of transactions to the state of
-- Tandem objects, `crates/tandem-core`, and the service around it that follows a Bitcoin node,
-- `crates/tandem-verifier`, and the command-line tools, `crates/tandem-cli`.
--
-- The program. A caller converts blocks to views and calls `apply_block` and `disconnect_block`.
-- `apply_block` checks that the block follows the tip, finds or awaits the configured INIT, reduces
-- the transactions in order, computes the event root, the object root and the chained root, and
-- returns a journal entry with the state from before. A transaction is classified by its marker
-- candidates (`marker.rs`) and by the carriers that it spends: an accepted operation changes one
-- object, and every other spend of a carrier ends its object.
--
-- The service. `Config::from_args` checks the arguments. `Ingestion::run_once` asks the node for its
-- status and best height, undoes the blocks that the node no longer has (`reconcile_reorg`), applies
-- the blocks up to the best height, and stores each with its journal entry in one transaction of the
-- store; the store undoes a block from the journal entry. The signer signs the tuple of a height.
--
-- The files.
--   Prelude: tests, lists measured by native numbers, orders, outcomes, byte encodings, sorting and
--   checked arithmetic. An outcome is a result, an error or a panic of the source.
--   Map: `BTreeMap` as an association list in the order of its keys.
--   Types: `crates/tandem-core/src/types.rs`. Hash has the fixed-width bytes, Crypto the interface
--   of the hashes and of the curve test, which other crates supply, Codes the constants and enums,
--   Keys and Views the scripts and the keys that inputs reveal, Binding the namespaces and object
--   keys, and State the chain state.
--   Marker: `crates/tandem-core/src/marker.rs`, the candidates and their parse.
--   Roots: `crates/tandem-core/src/roots.rs`, the preimages, the Merkle tree and the roots.
--   Reducer: `crates/tandem-core/src/reducer.rs`. Checks, Validate, Refund and Init are the
--   validation, in the source's order of checks; Apply the events and effects; Process
--   `process_transaction`; Block `apply_block` and `disconnect_block`. Rules states what accepted
--   operations satisfy, Frame of them of the marker and the frame; Change is the abstract step of the state that a transaction makes, with the
--   well-formedness of the state; Safe and Change/Total are about panics, and the children of Block
--   about whole blocks.
--   Verifier: `crates/tandem-verifier/src`. Release and Config are `config.rs`, with what an accepted
--   configuration guarantees in Config/Spec and Config/Accepted. Database is the schema,
--   `migrations/0001_initial.sql`, Store the transactions of `store.rs`, and its children show that
--   the tables stay the journal of a chain of applied blocks. Status is the readiness of the node in
--   `rpc.rs`, and Rpc the client of the node in the same file: Crates has what it uses of the crates
--   `bitcoin` and `secp256k1`, Calls the JSON-RPC calls, Signatures the check of an input, and
--   Resolved the views; Reference and Cached are about its caches, Spent and Blocks about the blocks
--   that it gives, Signed about valid signatures, and Worker about the worker over it. Ingest is
--   `ingest.rs`: Effects has the state of the worker and the effects of a pass, Ends what holds when a pass ends, and the other children are about whole passes. Signer is
--   `signer.rs`, and Api the readiness and the agreement route of `api.rs`.
--   Cli: `crates/tandem-cli/src/main.rs`. Replay is `replay`, Inputs `verify_inputs`, Levels
--   `verify_merkle_levels`, Fixture the other checks of the fixture and Vectors `verify_vectors`; Replayed and Rooted relate
--   replays and Merkle levels to the core.
--   Examples: concrete states, keys and transactions with a toy cryptography, and runs of them.
--
-- Conventions. A state that the source mutates is passed and returned; a panic of a function that
-- returns a state is `none`, of one that returns a result `panic`. A w-bit integer is a natural
-- number, and each checked operation names its bound. The fixed widths of byte arrays are not in
-- the types: where a result needs them, they are hypotheses. The Merkle loop runs on fuel, one
-- round for each leaf, and each round halves the leaves.
-- The node (for the client, its HTTP exchange and the crates `bitcoin` and `secp256k1`), the fate of each transaction (it does not start, it is rolled back, it commits and the
-- reply is lost, or it commits), files, URLs, JSON, hexadecimal text and Ed25519 are parameters. A
-- `jsonb` column is the value that it decodes to; in a row of `canonical_blocks` a `bytea` column is its
-- bytes and a `numeric` column its decimal text. `reconcile_reorg` runs on fuel: each round but the
-- last takes a block off the tables, so one round more than there are blocks is enough. Texts are
-- code points.
--
-- Not modelled: the serde conversions of the core; of the service the queries of lists and counts, the
-- HTTP exchange, the routes of `api.rs` that pass a query on, the endless loop around `run_once` with
-- its health record, and the start; of the tools the parser of the arguments and the printing of a
-- report.
pub mod Prelude
pub mod Map
pub mod Types
pub mod Marker
pub mod Roots
pub mod Reducer
pub mod Verifier
pub mod Cli
pub mod Examples

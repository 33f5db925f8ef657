-- ===== src/Types.antt =====
-- crates/tandem-core/src/types.rs: the consensus data types. The children hold the hashes and
-- keys, the scripts of a key pair, the coded enums, the transaction views and the chain state.
pub mod Hash
pub mod Crypto
pub mod Codes
pub mod Keys
pub mod Views
pub mod Binding
pub mod State
pub mod Hex

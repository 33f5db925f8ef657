-- ===== src/Verifier.antt =====
-- crates/tandem-verifier: the service around the reducer.
pub mod Release
pub mod Config
pub mod Signer
pub mod Api
pub mod Database
pub mod Store
pub mod Status
pub mod Rpc
pub mod Ingest

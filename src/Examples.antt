-- ===== src/Examples.antt =====
-- Concrete runs, and the theorems applied to them.
mod Fixtures
mod Runs
mod Valid
mod Blocks
mod Transactions
mod Encodings
mod Storing
mod Toys
mod Node
mod Ingestion
mod Service
mod Signing
mod Gates
mod Tools

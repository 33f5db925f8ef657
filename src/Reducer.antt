-- ===== src/Reducer.antt =====
-- crates/tandem-core/src/reducer.rs: block dispatch, validation, state reduction and rollback.
pub mod Checks
pub mod Validate
pub mod Refund
pub mod Init
pub mod Apply
pub mod Process
pub mod Block
pub mod Rules
pub mod Safe
pub mod Change

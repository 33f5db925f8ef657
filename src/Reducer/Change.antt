-- ===== src/Reducer/Change.antt =====
-- crates/tandem-core/src/reducer.rs: the change of the state that one transaction makes, as a
-- relation without events and checks. Its children show that `process_transaction` follows it,
-- and what every change keeps.
pub mod Carriers
pub mod Step
pub mod Follows
pub mod Total
pub mod Valid
pub mod Ends
pub mod Stores
pub mod Keeps
pub mod Fresh

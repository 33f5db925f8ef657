-- ===== src/Reducer/Rules.antt =====
-- crates/tandem-core/src/reducer.rs: what the accepted operations satisfy, stated without the
-- checks: the amounts, the four operations, the refund and the INIT.
pub mod Shape
pub mod Amounts
pub mod Predecessor
pub mod Create
pub mod Mark
pub mod Rotate
pub mod Close
pub mod Refund
pub mod Frame
pub mod Single

-- ===== src/Cli.antt =====
-- crates/tandem-cli/src/main.rs: the command-line tools, with files and JSON as parameters.
pub mod Errors
pub mod Replay
pub mod Replayed
pub mod Inputs
pub mod Json
pub mod Levels
pub mod Fixture
pub mod Vectors
pub mod Rooted

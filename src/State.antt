-- ===== src/State.antt =====
-- Package `internal/state`: status messages, their key renaming and their differences.
pub mod Value
pub mod Keys
pub mod Replace
pub mod Slice
pub mod Compare
pub mod Actor
pub mod Runs
mod Examples

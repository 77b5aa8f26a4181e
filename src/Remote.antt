-- ===== src/Remote.antt =====
-- The remote actor of internal/remote: it hands messages to the client of the platform, keeps what
-- could not be sent in the database, and replays that later.
mod Examples
pub mod Numbers
pub mod Prepare
pub mod Replay
pub mod Actor

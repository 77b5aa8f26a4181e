-- ===== src/Database.antt =====
-- Package `internal/database`: the bbolt repository, its actor and its service.
pub mod Errors
pub mod Bolt
pub mod Repo
pub mod Fsm
pub mod Messages
pub mod Storage
pub mod Actor
pub mod Service
pub mod Memory
mod Examples

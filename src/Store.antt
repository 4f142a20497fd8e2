-- ===== src/Store.antt =====
-- Package internal/repo/memory: the in-memory store.
pub mod Keys
pub mod State
pub mod Tuples
pub mod Workspaces
pub mod Groups
pub mod Seats
pub mod Tests

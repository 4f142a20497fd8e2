-- ===== src/Authz/Tests.antt =====
-- Runs of the engine on a small store, and each property of pkg/authz at an input of its own.
pub mod Store
mod CheckTests
mod OperationTests
mod DocumentTests
mod KeyTests

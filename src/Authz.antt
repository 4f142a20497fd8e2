-- ===== src/Authz.antt =====
-- Package pkg/authz: the relation-tuple engine.
pub mod Condition
pub mod Model
pub mod State
pub mod Engine
pub mod Check
pub mod Spending
pub mod Tree
pub mod Expand
pub mod CheckSet
pub mod ListObjects
pub mod Document
pub mod Tests
pub mod Decision
pub mod Keys

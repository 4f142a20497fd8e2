-- ===== src/Service.antt =====
-- Package internal/service: the workspace services.
pub mod Types
pub mod Access
pub mod Tuples
pub mod Tests
pub mod Seats
pub mod Names
pub mod Workspaces
pub mod Members
pub mod Ownership
pub mod Invitations
pub mod Groups
pub mod Decisions
pub mod Subjects
pub mod Consistency
pub mod Resolver
pub mod Projects
pub mod Rules
pub mod Roster

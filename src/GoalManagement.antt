-- ===== src/GoalManagement.antt =====
-- goal_management/: goals, their versions, and the proposals that change them.
pub mod Models
pub mod Lifecycle
pub mod Observations
pub mod Proposals
pub mod Reads
pub mod Governed
mod Tests

-- ===== src/RecoveryPlan.antt =====
-- recovery_plan/: the plan of a penalty window, its tasks and their completions.
pub mod Models
pub mod Plans
pub mod Tasks
pub mod Reads
mod Tests
pub mod Tracked
pub mod Stable

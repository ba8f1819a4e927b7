-- ===== src/PenaltyEngine.antt =====
-- penalty_engine/: penalty windows, their freezes, extensions and recovery credit.
pub mod Models
pub mod Window
pub mod Extension
pub mod Store
pub mod Consume
pub mod Credit
pub mod Freeze
pub mod Reconcile
pub mod Reads
mod Tests
pub mod FreezeSet

-- ===== src/Infrastructure.antt =====
-- infrastructure/: the transactional boundary, the text form of instants, and the event outbox.
pub mod Transaction
pub mod TimeFormat
pub mod Outbox
pub mod StartupLease
mod Tests

-- ===== src/TrustManager.antt =====
-- trust_manager/: incidents and how severe they are, and the trust in a domain.
pub mod Severity
pub mod Recalculation
pub mod Store
pub mod Domains
pub mod Incidents
mod Tests

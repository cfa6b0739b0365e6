-- ===== src/Ingestion.antt =====
-- src/arbiscan/ingestion: the live quote store, the rate gate and the provider health of
-- realtime.py, and the consolidation of multisource.py. A timedelta is its number of microseconds.
pub mod Consolidation
pub mod Transports
pub mod Quotes
pub mod Store
pub mod Reading
pub mod Gate
pub mod Health
mod Tests

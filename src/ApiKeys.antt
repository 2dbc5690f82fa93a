-- ===== src/ApiKeys.antt =====
-- The keys by which clients hand in events.
pub mod Service
pub mod Authentication
pub mod Rotation
mod Tests

-- ===== src/Delivery.antt =====
-- The delivery of events to their destinations, with retries and dead letters.
pub mod Model
pub mod Service
pub mod Repository
pub mod Retry
pub mod Worker
pub mod DeadLetters
pub mod Lifecycle
pub mod Backoff
pub mod Selection
pub mod Requests
pub mod Hazards
pub mod Release
mod Tests

-- ===== src/Routing.antt =====
-- The routing of received events to deliveries.
pub mod Model
pub mod Worker
pub mod Counts
pub mod Lifecycle
pub mod Once
mod Tests

-- ===== src/Aggregation.antt =====
-- The aggregation of analytical observations into the counters that Prometheus reads.
pub mod Values
pub mod Labels
pub mod Model
pub mod Repository
pub mod Service
pub mod Worker
pub mod Groups
pub mod Tenants
pub mod States
pub mod Pending
pub mod Positions
pub mod Batches
pub mod Refinement
pub mod Reached
pub mod Log
pub mod Progress
pub mod Late
mod Tests

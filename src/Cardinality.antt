-- ===== src/Cardinality.antt =====
-- The static bound on the series of an event type's metrics.
pub mod Model
pub mod Names
pub mod Estimate
pub mod Assess
pub mod Bounds
pub mod Unambiguous
pub mod Tallies
pub mod Budget
mod Tests

-- ===== src/Execution.antt =====
-- The execution of metric plans on events.
pub mod Model
pub mod Provider
pub mod Repository
pub mod Materialization
pub mod Service
pub mod Lifecycle
pub mod Cycle
pub mod Reachable
pub mod Atomicity
pub mod Inserts
pub mod Freeze
mod Tests

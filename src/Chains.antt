-- ===== src/Chains.antt =====
-- The building and the activation of processing chains, the snapshots of an event type's metrics.
pub mod Model
pub mod Repository
pub mod Builder
pub mod Service
pub mod Activation
pub mod Selections
pub mod Exclusive
pub mod Switch
pub mod Outcome
pub mod Activations
pub mod Changes
pub mod Budget
pub mod Snapshots
pub mod Prepared
mod Tests

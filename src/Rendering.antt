-- ===== src/Rendering.antt =====
-- The Prometheus document of a project.
pub mod Escape
pub mod RoundTrip
pub mod Labels
pub mod Render
pub mod Legacy
pub mod Families
pub mod Unique
pub mod Service
pub mod Isolation
mod Tests

-- ===== src/Projects.antt =====
-- Projects, their members and what the members may do.
pub mod Model
pub mod Service
pub mod Members
pub mod Permissions
pub mod Rows
pub mod Ownership
pub mod Changes
pub mod Revocation
pub mod Overlap
mod Tests

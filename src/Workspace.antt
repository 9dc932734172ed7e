-- ===== src/Workspace.antt =====
-- Workspaces (crates/app/src/features/workspace).
pub mod Domain
pub mod Repository
pub mod Members
pub mod Settings
pub mod Announcement
mod Examples

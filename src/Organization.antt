-- ===== src/Organization.antt =====
-- Organizations (crates/app/src/features/organization).
pub mod Domain
pub mod Rows
pub mod Database
pub mod Repository
pub mod UseCases
pub mod Requests
pub mod Reading
pub mod Writes
pub mod Roles
pub mod Invitations
pub mod Credits
pub mod Answers
pub mod Slug
pub mod Removal
mod Examples

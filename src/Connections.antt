-- ===== src/Connections.antt =====
-- Database connections (crates/app/src/features/connections).
pub mod Vault
pub mod Encryption
pub mod Domain
pub mod Names
pub mod Versions
pub mod Rows
pub mod Repository
pub mod UseCases
pub mod Requests
pub mod Storage
pub mod Creation
pub mod Unreadable
pub mod Removal
pub mod Schemas
pub mod Secrets
mod Examples

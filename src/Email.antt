-- ===== src/Email.antt =====
-- The e-mails of the server (crates/app/src/services/email).
pub mod Renderer
pub mod Types
pub mod Replacing
pub mod Rendering
pub mod Service
pub mod Messages
pub mod Clients
pub mod Providers
pub mod Delivery
mod Examples

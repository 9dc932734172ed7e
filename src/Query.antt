-- ===== src/Query.antt =====
-- Queries on a connected database (crates/app/src/features/query).
pub mod Domain
pub mod Guard
mod Examples
pub mod Session
pub mod Executor
pub mod Repository
pub mod Pools
pub mod UseCase

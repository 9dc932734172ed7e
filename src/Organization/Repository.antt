-- ===== src/Organization/Repository.antt =====
-- The calls of the database: crates/app/src/features/organization/repository.rs. A call takes the
-- number of the call in the request; a `Run` leaves the tables also where it fails.
pub mod Members
pub mod Organizations
pub mod Invitations

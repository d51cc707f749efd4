-- ===== src/Storage.antt =====
-- The package internal/storage/postgres over the schema of migrations/.
pub mod Schema
pub mod Statements
pub mod World
pub mod Repository
pub mod Rows
pub mod Invariant
pub mod Progress
pub mod Claiming
pub mod Creation
pub mod Finalising
pub mod Reading
pub mod Recovering
pub mod Idempotency
pub mod Guarantee

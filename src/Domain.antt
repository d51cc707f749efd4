-- ===== src/Domain.antt =====
-- The package internal/domain: the business entities of the service and its sentinel errors.
pub mod Errors
pub mod Pair
pub mod Task

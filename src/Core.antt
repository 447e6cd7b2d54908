-- ===== src/Core.antt =====
-- src/core: the canonical model that every protocol adapter, payment rail and store shares.
pub mod Errors
pub mod Time
pub mod Attempt
pub mod Transaction

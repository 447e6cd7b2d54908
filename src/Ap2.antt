-- ===== src/Ap2.antt =====
-- src/authorization/ap2.
pub mod ReplayStore

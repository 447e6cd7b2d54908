-- ===== src/Payments.antt =====
-- src/payments: the rails that take payments.
mod Tests
pub mod Amount

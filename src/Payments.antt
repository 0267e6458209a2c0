-- ===== src/Payments.antt =====
-- Payments: apps/payments. Models has the tables, Charges, Refunds and Webhooks the operations;
-- Settlement, Totals and Callbacks prove them.
pub mod Models
pub mod Charges
pub mod Refunds
pub mod Webhooks
pub mod Settlement
pub mod Totals
pub mod Callbacks
mod Tests

-- ===== src/Subscriptions.antt =====
-- Subscriptions: apps/subscriptions. Plan and Models have the tables, Coupons, Gates and Lifecycle the
-- operations; Live and Caps prove them.
pub mod Plan
pub mod Models
pub mod Coupons
pub mod Gates
pub mod Lifecycle
pub mod Live
pub mod Caps
mod Tests

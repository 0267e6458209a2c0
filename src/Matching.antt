-- ===== src/Matching.antt =====
-- Matching: apps/matching. Payloads, Scoring and Engine are engine.py, Service the service and its
-- tables; the others prove them.
pub mod Payloads
pub mod Scoring
pub mod Engine
pub mod Service
pub mod Bounds
pub mod Filters
pub mod Fitting
pub mod Ranking
mod Tests

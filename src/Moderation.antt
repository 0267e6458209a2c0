-- ===== src/Moderation.antt =====
-- Moderation: apps/moderation. Models has the tables, Trust, Cases and Screening the operations; the
-- others prove them.
pub mod Models
pub mod Trust
pub mod Cases
pub mod Screening
pub mod Blocking
pub mod Scores
pub mod Verdicts
mod Tests

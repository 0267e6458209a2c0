-- ===== src/Likes.antt =====
-- Likes: apps/likes. Models has the tables, Quotas, Swipes and Lists the operations; the others
-- prove them.
pub mod Models
pub mod Quotas
pub mod Swipes
pub mod Lists
pub mod Allowance
pub mod Matching
pub mod Repeats
pub mod Admirers
mod Tests

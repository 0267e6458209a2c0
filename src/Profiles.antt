-- ===== src/Profiles.antt =====
-- Profiles: apps/profiles. Models has the tables, Editing, Gallery and Reads the operations; the others
-- prove them.
pub mod Models
pub mod Editing
pub mod Gallery
pub mod Reads
pub mod Photos
pub mod Galleries
pub mod Counters
pub mod Completion
mod Tests

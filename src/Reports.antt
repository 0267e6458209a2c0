-- ===== src/Reports.antt =====
-- Reports and blocks: apps/reports. Models has the tables, Blocks and Filing the operations; Coherence
-- and Shield prove the blocks and their cache, Consequences what a report does; Ties has what a block sets
-- off in the other services, and Severance what is left of it.
pub mod Models
pub mod Blocks
pub mod Filing
pub mod Coherence
pub mod Shield
pub mod Consequences
pub mod Ties
pub mod Severance
mod Tests

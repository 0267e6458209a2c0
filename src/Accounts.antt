-- ===== src/Accounts.antt =====
-- Accounts: apps/accounts. Models has the table, Lifecycle the operations; the others prove them.
pub mod Models
pub mod Lifecycle
pub mod Registration
pub mod Devices
pub mod Roles
pub mod Directory
pub mod Standing
pub mod Uniqueness
pub mod Privileges
pub mod Visibility
pub mod DeviceTrust
pub mod Deletion
mod Tests

-- ===== src/Chat.antt =====
-- Chat: apps/chat. Models has the tables, Conversations, Messages and Upkeep the operations; Threads,
-- Sending, Allowed, Rows, Delivery and Marks prove them.
pub mod Models
pub mod Conversations
pub mod Messages
pub mod Upkeep
pub mod Threads
pub mod Sending
pub mod Allowed
pub mod Rows
pub mod Delivery
pub mod Marks
mod Tests

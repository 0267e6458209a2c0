-- ===== src/Authentication.antt =====
-- Authentication: apps/authentication. Models has the tables, Tokens and Passwords the operations;
-- SingleUse proves the tokens, Resets the passwords.
pub mod Models
pub mod Tokens
pub mod Totp
pub mod Codes
pub mod Login
pub mod Requests
pub mod Sessions
pub mod Social
pub mod Naming
pub mod Mfa
pub mod Lockout
pub mod Throttling
pub mod Attempts
pub mod SecondFactor
pub mod Replay
pub mod Revocation
pub mod Passwords
pub mod SingleUse
pub mod Resets
mod Tests

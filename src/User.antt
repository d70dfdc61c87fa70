-- ===== src/User.antt =====
-- internal/domain/user: users, their passwords and the verification of their emails.
pub mod Model
pub mod Aggregate
pub mod Ports
pub mod Service
pub mod Calls
pub mod History
pub mod Passwords
pub mod Tokens
mod Examples

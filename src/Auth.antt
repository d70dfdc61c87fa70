-- ===== src/Auth.antt =====
-- internal/domain/auth: logins, refresh tokens and keys.
pub mod Model
pub mod Keys
pub mod Ports
pub mod Sessions
pub mod UserKeys
pub mod SystemKeys
pub mod Rotation
pub mod Access
mod Examples

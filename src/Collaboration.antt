-- ===== src/Collaboration.antt =====
-- internal/domain/collaboration: teams, their members and invitations.
pub mod Model
pub mod Roles
pub mod Ports
pub mod Views
pub mod Teams
pub mod Members
pub mod Invitations
pub mod Table
pub mod Ownership
pub mod Calls
pub mod History
pub mod Levels
pub mod Tokens
mod Examples

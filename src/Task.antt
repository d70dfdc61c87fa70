-- ===== src/Task.antt =====
-- internal/infra/task: tasks in the background.
pub mod Model
pub mod Ports
pub mod Manager
pub mod Polling
pub mod Endings
pub mod Races
mod Examples

-- ===== src/Media.antt =====
-- internal/domain/media: the choice of a model, and the tasks that generate videos.
pub mod Model
pub mod Ports
pub mod Selection
pub mod Tasks
pub mod Video
pub mod Choice
pub mod Calm
pub mod Row
pub mod Endings
mod Examples

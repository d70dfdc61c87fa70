-- ===== src/Git.antt =====
-- internal/domain/git: repositories, who has access to them, pull requests, and the locks of files.
pub mod Model
pub mod Ports
pub mod Access
pub mod Slugs
pub mod SlugLaws
pub mod Storage
pub mod Repos
pub mod Collaborators
pub mod PullRequests
pub mod Table
pub mod Calls
pub mod Merging
pub mod Creation
pub mod Objects
pub mod Batches
pub mod Locks
pub mod Levels
pub mod Exclusion
mod Examples
mod PullExamples
mod RepoExamples

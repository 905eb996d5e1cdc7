-- ===== src/Projects.antt =====
-- The project registry: apps/api/app/projects/repository.py.
pub mod Rows
pub mod Session
pub mod Access
pub mod Requests
pub mod Registry
pub mod Uploads
pub mod Files
pub mod Builds
pub mod Retry
pub mod AccessHistory
pub mod Locked
pub mod Archive
pub mod Listing
pub mod ErrorCode
pub mod Worker
mod Tests

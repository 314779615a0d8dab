-- ===== src/Scheduler.antt =====
-- The scheduler, src/scheduler.
pub mod Peak
pub mod Environments
pub mod ObjectCacheManager
pub mod Builder
pub mod Choice
pub mod Sync
pub mod Program
pub mod Database
pub mod Server
pub mod File
pub mod Users
pub mod Purge

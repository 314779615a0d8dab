-- ===== src/Builder.antt =====
-- The builder (src/builder): its object cache on disk, its queue of jobs, and the calls of its compilers.
pub mod ObjectCache
pub mod JobQueue
pub mod VmCompile
pub mod Sockets
pub mod PendingItem
pub mod Results

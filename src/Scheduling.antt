-- ===== src/Scheduling.antt =====
-- src/scheduling: the queue of the processes that are ready.
pub mod Queue
pub mod Process
pub mod Scheduler
mod QueueTests

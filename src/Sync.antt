-- ===== src/Sync.antt =====
-- core/internal/sync: the pending-op queue, its executor, the snooze scheduler, the retention job,
-- the reconciler and the poll loop, one child each.
pub mod Types
pub mod World
pub mod Queue
pub mod Executor
pub mod Scheduler
pub mod Janitor
pub mod Reconciler
pub mod Engine

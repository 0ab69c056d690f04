-- ===== src/Threads.antt =====
-- The user-level thread library, threads.
pub mod State
pub mod Queue
pub mod Scheduler
pub mod Interrupt
pub mod Sync
pub mod Scan
pub mod Wakeup
pub mod Create
pub mod Switch
pub mod Locks
pub mod Scheduled
pub mod Switched
pub mod Calls
pub mod Sleeping
pub mod Resume
pub mod Choosing
pub mod Waking
pub mod Creating
pub mod LockCalls
pub mod WaitCalls
pub mod Begun
pub mod History
mod HistoryTests
mod Tests

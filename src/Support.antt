-- ===== src/Support.antt =====
-- Phase 3, the support level.
pub mod State
pub mod Calls
pub mod Syscalls
pub mod Paging
pub mod Exceptions
pub mod Threads
pub mod Start
pub mod Refill
pub mod Mutex
mod Tests

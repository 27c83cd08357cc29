-- ===== src/Kernel/Tests.antt =====
-- Tests of the nucleus.
mod Messages
mod Terminate
pub mod Interrupts
mod Services
mod Service
mod Exceptions
mod Linked
mod Start
pub mod Samples

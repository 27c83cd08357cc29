-- ===== src/Kernel.antt =====
-- Phase 2, the nucleus. Its queues are modelled by their contents, which is what the functions of
-- phase1/pcb.c and phase1/msg.c compute with (`Pcb.Queue`, `Pcb.Pool`, `Pcb.Tree`, `Msg.Queue`, `Msg.Pool`).
pub mod State
pub mod Run
pub mod Queues
pub mod Scheduler
pub mod Messages
pub mod Terminate
pub mod Devices
pub mod Interrupts
pub mod Services
pub mod Exceptions
pub mod Start
pub mod Linked
pub mod Places
pub mod Service
pub mod Tests

-- ===== src/Support/Exceptions/Trap.antt =====
-- What `generalExceptionHandler` and `trapExceptionHandler` of phase3/sysSupport.c do about any other exception.
use progetto_so.Base.{◌≢◌, ◌==◌, ◌⊎◌, ◌∷◌, if◌then◌else◌}
use progetto_so.Kernel.State.{ProcState}
use progetto_so.Support.State.{send, nothing, Level, World}

-- Neither SendMessage nor ReceiveMessage: another exception, or a system call with another number.
abbrev pub IsTrap : World → ProcState → Type 0
IsTrap w s = (w.exc_code s.cause ≢ 8) ⊎ ((s.reg_a0 ≢ 1) × (s.reg_a0 ≢ 2))

-- The state after the pool's mutex is given back, if the process holds it.
abbrev pub unlocked : Level → Level
unlocked l = record l {
  calls =
      if l.curr_mutex_proc == l.current_process
      then send l.swap_mutex_proc nothing ∷ l.calls
      else l.calls;
}

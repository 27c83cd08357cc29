-- ===== src/Kernel/Exceptions.antt =====
-- The exception handlers of phase2/exceptions.c.
pub mod Privilege
use Prim.Native.Nat.{bit_and, bit_or}
use progetto_so.Base.{ℕ, ◌+◌, ◌==◌, ◌||◌, not, leb, if◌then◌else◌, update}
use progetto_so.Listx.{null}
use progetto_so.Kernel.State.{Kernel, ProcState}
use progetto_so.Kernel.Run.{
  Cmd, ldst, ldcxt, ◌>>=◌, ◌>>◌, pure, stop, modify, get, returns, add_word, int_ge, minus_one,
  minus_two,
}
use progetto_so.Kernel.Scheduler.{scheduler}
use progetto_so.Kernel.Messages.{send_message, receive_message}
use progetto_so.Kernel.Terminate.{terminate_process}
use progetto_so.Kernel.Interrupts.{Machine, interrupt_handler}

-- `PGFAULTEXCEPT` and `GENERALEXCEPT`
abbrev pub pgfaultexcept : ℕ
pgfaultexcept = 0

abbrev pub generalexcept : ℕ
generalexcept = 1

abbrev pub userpon : ℕ
userpon = 8

-- The cause of a saved state after `(cause & DISBALEExcCode) | RI`.
unfoldable pub reserved_instruction : ProcState → ProcState
reserved_instruction s = record s { cause = bit_or (bit_and s.cause 0xffff_ff83) 0x28 }

abbrev pub set_v0 : ℕ → Kernel → Kernel
set_v0 v k = record k { proc_state = record k.proc_state { reg_v0 = v } }

-- `fuel` is for the end of a process tree.
module _ (h : Machine) (fuel : ℕ) where
  unfoldable pub pass_up_or_die : (index : ℕ) → Cmd (Unit {0})
  pass_up_or_die index k =
      let support = k.p_support k.current_process in
      if support == null
      then (terminate_process fuel k.current_process >> scheduler h.tod) k
      else stop (ldcxt support index) (record k {
        sup_except_state =
            update k.sup_except_state support
              (update (k.sup_except_state support) index k.proc_state);
      })

  unfoldable pub syscall_program_trap : Cmd (Unit {0})
  unfolding pass_up_or_die reserved_instruction
  syscall_program_trap =
      modify (λ k. record k { proc_state = reserved_instruction k.proc_state })
      >> pass_up_or_die generalexcept

  -- The `switch` on the number of the system call.
  unfoldable pub serve_system_call : Cmd (Unit {0})
  unfolding syscall_program_trap
  serve_system_call k =
      let s = k.proc_state in
      let (code, t) = send_message s.reg_a1 s.reg_a2 k.current_process k in
      if s.reg_a0 == minus_one
      then returns tt (set_v0 code t)
      else if s.reg_a0 == minus_two
      then (receive_message h.tod s.reg_a1 s.reg_a2 >>= λ sender. modify (set_v0 sender)) k
      else syscall_program_trap k

  -- The trap and the `switch` stand after calls that return only where the scheduler does.
  unfoldable pub system_call_handler : Cmd (Unit {0})
  unfolding pass_up_or_die syscall_program_trap serve_system_call
  system_call_handler = do
    k ← get
    if int_ge k.proc_state.reg_a0 1 then pass_up_or_die generalexcept else pure tt
    k ← get
    if not (bit_and k.proc_state.status userpon == 0) then syscall_program_trap else pure tt
    serve_system_call
    modify λ k. record k {
      proc_state = record k.proc_state { pc_epc = add_word k.proc_state.pc_epc 4 };
    }
    k ← get
    stop (ldst k.proc_state)

  -- `exc_code` is the library's `CAUSE_GET_EXCCODE`.
  unfoldable pub exception_handler : (exc_code : ℕ → ℕ) → Cmd (Unit {0})
  unfolding pass_up_or_die system_call_handler
  exception_handler exc_code k =
      let code = exc_code k.proc_state.cause in
      if code == 0
      then interrupt_handler h k
      else if leb code 3
      then pass_up_or_die pgfaultexcept k
      else if code == 8
      then system_call_handler k
      else if leb code 12
      then pass_up_or_die generalexcept k
      else returns tt k
